-- ===== src/Rlink/Connect/Response/Checks.antt =====
-- The checks of a command whose response is complete: they set check flags and count, and change
-- nothing else.
use w.Base.{ℕ, ◌≤◌, ◌≡◌, refl, ap, ◌∙◌, Bool, true, false, not}
use w.Base.{Option, none, some, if_false, is_empty, if◌then◌else◌, arith}
use w.Rlink.Command.{Command, block_size, status_check, status_is_checked}
use w.Rlink.Command.Laws.{IsDone, done_kept}
use w.Rlink.Command.Expect.{Expect, done_is_checked, data_is_checked}
use w.Rlink.Command.Flag
use w.Rlink.Connect.Stat
use w.Rlink.Connect.State.{Link, counts_if}
use w.Rlink.Connect.Decode.{
  check_expect, check_status, flag_if, is_block, count_expect, reads_behind,
}
use w.Rlink.Connect.Decode.{data_fails, done_fails}

-- The same command but for its flags, and done if it was.
pub record SameButFlags (c c' : Command) : Type 0 where
  pub same : record c' { flags = c.flags } ≡ c
  pub done_stays : IsDone c → IsDone c'

SameButFlags-trans : (a b c : Command) → SameButFlags a b → SameButFlags b c → SameButFlags a c
SameButFlags-trans a b c f g = record {
  same = ap (λ (t : Command). record t { flags = a.flags }) g.same ∙ f.same;
  done_stays = λ h. g.done_stays (f.done_stays h);
}

flag_if-Same : (b : Bool) (mask : ℕ) (c : Command) → SameButFlags c (flag_if b mask c)
flag_if-Same true mask c = record { same = refl; done_stays = λ h. done_kept c.flags mask h }
flag_if-Same false mask c = record { same = refl; done_stays = λ h. h }

counts_if-rcv : (b : Bool) (i : ℕ) (l : Link) → (counts_if b i l).rcv ≡ l.rcv
counts_if-rcv true i l = refl
counts_if-rcv false i l = refl

count_expect-rcv : (k : ℕ) (e : Expect) (l : Link) → (count_expect k e l).rcv ≡ l.rcv
count_expect-rcv k e l =
    either (is_block k) _ _
      (counts_if-rcv (done_is_checked e) Stat.n_exp_done _
        ∙ counts_if-rcv (not (is_empty e.block_val)) Stat.n_exp_data l)
      (counts_if-rcv (data_is_checked e) Stat.n_exp_data l)
  where
    either :
        (b : Bool) (x y : Link) → x.rcv ≡ l.rcv → y.rcv ≡ l.rcv → (if b then x else y).rcv ≡ l.rcv
    either true x y p q = p
    either false x y p q = q

no_read_behind :
    (k : ℕ) (e : Expect) (c : Command) → c.block_done ≤ block_size c → reads_behind k e c ≡ false
no_read_behind k e c h = ground arith

pub record Checked (c : Command) (l : Link) (res : Option (Command × Link)) : Type 0 where
  pub out : Command
  pub link : Link
  pub returns : res ≡ some (out, link)
  pub same : SameButFlags c out
  pub rcv_kept : link.rcv ≡ l.rcv

pub check_expect-Checked :
    (k : ℕ) (o : Option Expect) (c : Command) (l : Link)
    → c.block_done ≤ block_size c
    → Checked c l (check_expect k o c l)
unfolding check_expect
check_expect-Checked k none c l h = record {
  out = c;
  link = l;
  returns = refl;
  same = record { same = refl; done_stays = λ d. d };
  rcv_kept = refl;
}
check_expect-Checked k (some e) c l h = record {
  out = flag_if (done_fails k e c) Flag.chk_done (flag_if (data_fails k e c) Flag.chk_data c);
  link =
      counts_if (done_fails k e c) Stat.n_chk_done
        (counts_if (data_fails k e c) Stat.n_chk_data (count_expect k e l));
  returns = if_false _ _ (no_read_behind k e c h);
  same =
      SameButFlags-trans _ _ _ (flag_if-Same (data_fails k e c) Flag.chk_data c)
        (flag_if-Same (done_fails k e c) Flag.chk_done _);
  rcv_kept =
      counts_if-rcv (done_fails k e c) Stat.n_chk_done _
      ∙ counts_if-rcv (data_fails k e c) Stat.n_chk_data _
      ∙ count_expect-rcv k e l;
}

pub check_status-Checked : (c : Command) (l : Link) → Checked c l (some (check_status c l))
unfolding check_status
check_status-Checked c l = record {
  out = flag_if (not (status_check c)) Flag.chk_stat c;
  link = counts_if (not (status_check c)) Stat.n_chk_stat (
      counts_if (not (status_is_checked c)) Stat.n_no_exp_stat
        (counts_if c.expect_status_set Stat.n_exp_stat l));
  returns = refl;
  same = flag_if-Same (not (status_check c)) Flag.chk_stat c;
  rcv_kept =
      counts_if-rcv (not (status_check c)) Stat.n_chk_stat _
      ∙ counts_if-rcv (not (status_is_checked c)) Stat.n_no_exp_stat _
      ∙ counts_if-rcv c.expect_status_set Stat.n_exp_stat l;
}
