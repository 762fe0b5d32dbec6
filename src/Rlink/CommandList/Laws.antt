-- ===== src/Rlink/CommandList/Laws.antt =====
-- What the operations of RlinkCommandList.cpp promise: a list that they build can be executed.
use w.Base.{ℕ, ◌<◌, ◌≡◌, refl, sym, ap, subst, ◌∙◌, Bool, true, false, Option, none, some}
use w.Base.{List, [], ◌∷◌, ◌++◌, length, All, bit_and, ◌==◌, not, ◌>>=◌, arith, ltb, if◌then◌else◌}
use w.Rlink.Command.{Command, command, test_flag_any, set_command, cmd_rreg, cmd_wreg, cmd_labo}
use w.Rlink.Command.{cmd_rblk, cmd_rblk_ext, cmd_wblk, cmd_wblk_ext, cmd_attn, cmd_init}
use w.Rlink.Command.{set_block_read, set_block_write, set_block_ext, bad_size, ensure_expect}
use w.Rlink.Command
use w.Rlink.Command.Flag
use w.Rlink.Command.Expect.{Expect}
use w.Rlink.CommandList.{CommandList, create, add_command, add_all_commands, add_list}
use w.Rlink.CommandList.{add_new, on_last, set_last, on_expect}
use w.Rlink.CommandList.{add_rblk_ext, add_wblk_ext, set_last_expect_status, set_last_expect_data}
use w.Rlink.CommandList.{set_last_expect_done, set_last_expect_block, set_last_expect_block_masked}
use w.Rlink.CommandList.{set_last_expect}
use w.Rlink.CommandList.{add_rreg, add_rblk, add_wreg, add_wblk, add_labo, add_attn, add_init}

-- A command that is set up, and has a code of the protocol.
pub record IsValid (c : Command) : Type 0 where
  pub is_set_up : test_flag_any Flag.setup c ≡ true
  pub has_code : command c < 7

-- Of the result, if there is one.
abbrev pub OnSome : {A : Type 0} → (A → Type 0) → Option A → Type 0
OnSome P none = Unit
OnSome P (some x) = P x

OnSome-bind :
    {A B : Type 0} (P : A → Type 0) (Q : B → Type 0) (f : A → Option B) (o : Option A)
    → OnSome P o
    → ((x : A) → P x → OnSome Q (f x))
    → OnSome Q (o >>= f)
OnSome-bind P Q f none h k = tt
OnSome-bind P Q f (some x) h k = k x h

set_command-IsValid :
    (cmd addr d : ℕ) (c : Command) → bit_and cmd 7 < 7 → OnSome IsValid (set_command cmd addr d c)
unfolding set_command command
set_command-IsValid cmd addr d c h = by_code (ltb 6 cmd)
  where
    out : Command
    out = record c {
      request = cmd;
      address = addr;
      data_word = d;
      block_ext = none;
      block_done = 0;
      status = 0;
      flags = Flag.setup;
      rcv_size = 0;
      expect = none;
    }

    by_code : (b : Bool) → OnSome IsValid (if b then none else some out)
    by_code true = tt
    by_code false = record { is_set_up = refl; has_code = h }

-- The block is put in place; code and flags stay.
kept :
    (b : Bool) (c d : Command)
    → d.request ≡ c.request
    → d.flags ≡ c.flags
    → IsValid c
    → OnSome IsValid (if b then none else some d)
unfolding command
kept true c d p q v = tt
kept false c d p q v = record {
  is_set_up = ap (λ (t : ℕ). not (bit_and t Flag.setup == 0)) q ∙ v.is_set_up;
  has_code = subst (λ (t : ℕ). bit_and t 7 < 7) (sym p) v.has_code;
}

set_block_ext-IsValid :
    (p : Option (List ℕ)) (c : Command) → IsValid c → OnSome IsValid (set_block_ext p c)
unfolding set_block_ext
set_block_ext-IsValid none c v = tt
set_block_ext-IsValid (some b) c v = kept (bad_size (length b)) c _ refl refl v

-- What `SetLastExpect...` may do to a command.
KeepsValid : (Command → Command) → Type 0
KeepsValid f = (c : Command) → IsValid c → IsValid (f c)

-- The calls that build a list. `add_command_of` is `AddCommand` of a command, which is copied or moved in;
-- `add_list_of` is `AddCommand` of a list.
pub data Build : Type 0 where
  add_command_of : Command → Build
  add_list_of : CommandList → Build
  rreg : ℕ → Build
  rblk : ℕ → ℕ → Build
  rblk_ext : ℕ → Option (List ℕ) → Build
  wreg : ℕ → ℕ → Build
  wblk : ℕ → List ℕ → Build
  wblk_ext : ℕ → Option (List ℕ) → Build
  labo attn : Build
  init : ℕ → ℕ → Build
  expect_status expect_data : ℕ → ℕ → Build
  expect_done : ℕ → Build
  expect_block : List ℕ → Build
  expect_block_masked : List ℕ → List ℕ → Build
  expect_any : Option Expect → Build

abbrev added : Option (ℕ × CommandList) → Option CommandList
added none = none
added (some (i, l)) = some l

abbrev pub build_one : Build → CommandList → Option CommandList
build_one (Build.add_command_of c) l = some (add_command c l).1
build_one (Build.add_list_of from) l = some (add_list from l).1
build_one (Build.rreg addr) l = added (add_rreg addr l)
build_one (Build.rblk addr n) l = added (add_rblk addr n l)
build_one (Build.rblk_ext addr p) l = added (add_rblk_ext addr p l)
build_one (Build.wreg addr d) l = added (add_wreg addr d l)
build_one (Build.wblk addr b) l = added (add_wblk addr b l)
build_one (Build.wblk_ext addr p) l = added (add_wblk_ext addr p l)
build_one Build.labo l = added (add_labo l)
build_one Build.attn l = added (add_attn l)
build_one (Build.init addr d) l = added (add_init addr d l)
build_one (Build.expect_status v m) l = set_last_expect_status v m l
build_one (Build.expect_data v m) l = set_last_expect_data v m l
build_one (Build.expect_done n) l = set_last_expect_done n l
build_one (Build.expect_block b) l = set_last_expect_block b l
build_one (Build.expect_block_masked b m) l = set_last_expect_block_masked b m l
build_one (Build.expect_any e) l = set_last_expect e l

abbrev pub build : List Build → CommandList → Option CommandList
build [] l = some l
build (b ∷ bs) l = do l' ← build_one b l; build bs l'

-- What `AddCommand` is called with: a command that has been set up, or a list of such commands.
abbrev pub AddsValid : Build → Type 0
AddsValid (Build.add_command_of c) = IsValid c
AddsValid (Build.add_list_of from) = All IsValid from.commands
AddsValid _ = Unit

AllValid : CommandList → Type 0
AllValid l = All IsValid l.commands

All-snoc :
    (cs : List Command) (c : Command) → All IsValid cs → IsValid c → All IsValid (cs ++ (c ∷ []))
All-snoc [] c hs h = (h, tt)
All-snoc (d ∷ cs) c hs h = (hs.0, All-snoc cs c hs.1 h)

add_all_commands-AllValid :
    (cs : List Command) (l : CommandList)
    → All IsValid cs
    → AllValid l
    → AllValid (add_all_commands cs l)
unfolding add_all_commands add_command AllValid
add_all_commands-AllValid [] l hs v = v
add_all_commands-AllValid (c ∷ cs) l (h, hs) v =
    add_all_commands-AllValid cs (add_command c l).1 hs (All-snoc l.commands c v h)

add_new-AllValid :
    (f : Command → Option Command) (l : CommandList)
    → OnSome IsValid (f Command.create)
    → AllValid l
    → OnSome AllValid (added (add_new f l))
unfolding add_new add_command AllValid
add_new-AllValid f l h v = by_result (f Command.create) h
  where
    by_result :
        (o : Option Command)
        → OnSome IsValid o
        → OnSome AllValid (added (o >>= λ c. some (add_command c l)))
    by_result none h = tt
    by_result (some c) h = All-snoc l.commands c v h

on_last-All :
    (f : Command → Command) (cs : List Command)
    → KeepsValid f
    → All IsValid cs
    → OnSome (All IsValid) (on_last f cs)
unfolding KeepsValid
on_last-All f [] k v = tt
on_last-All f (c ∷ []) k v = (k c v.0, tt)
on_last-All f (c ∷ d ∷ cs) k v =
    OnSome-bind (All IsValid) (All IsValid) (λ ds. some (c ∷ ds)) (on_last f (d ∷ cs))
      (on_last-All f (d ∷ cs) k v.1) (λ ds w. (v.0, w))

set_last-AllValid :
    (f : Command → Command) (l : CommandList)
    → KeepsValid f
    → AllValid l
    → OnSome AllValid (set_last f l)
unfolding set_last AllValid
set_last-AllValid f l k v =
    OnSome-bind (All IsValid) AllValid _ (on_last f l.commands) (on_last-All f l.commands k v)
      (λ cs w. w)

on_expect-KeepsValid : (f : Expect → Expect) → KeepsValid (on_expect f)
unfolding KeepsValid on_expect ensure_expect command
on_expect-KeepsValid f c v =
    let flags_kept : (ensure_expect c).flags ≡ c.flags = ground arith in
    let request_kept : (ensure_expect c).request ≡ c.request = ground arith in
    record {
      is_set_up = ap (λ (t : ℕ). not (bit_and t Flag.setup == 0)) flags_kept ∙ v.is_set_up;
      has_code = subst (λ (t : ℕ). bit_and t 7 < 7) (sym request_kept) v.has_code;
    }

set_last_expect-AllValid :
    (f : Expect → Expect) (l : CommandList)
    → AllValid l
    → OnSome AllValid (set_last (on_expect f) l)
set_last_expect-AllValid f l v = set_last-AllValid (on_expect f) l (on_expect-KeepsValid f) v

then_set :
    (code addr : ℕ) (f : Command → Option Command)
    → bit_and code 7 < 7
    → ((c : Command) → IsValid c → OnSome IsValid (f c))
    → OnSome IsValid (set_command code addr 0 Command.create >>= f)
then_set code addr f h k =
    OnSome-bind IsValid IsValid f _ (set_command-IsValid code addr 0 Command.create h) k

-- Each call that builds a list keeps its commands valid.
build_one-AllValid :
    (b : Build) (l : CommandList) → AddsValid b → AllValid l → OnSome AllValid (build_one b l)
unfolding add_command add_list AllValid add_rreg add_rblk add_rblk_ext add_wreg add_wblk
    add_wblk_ext add_labo add_attn add_init set_last_expect_status set_last_expect_data
    set_last_expect_done set_last_expect_block set_last_expect_block_masked set_last_expect cmd_rreg
    cmd_rblk cmd_rblk_ext cmd_wreg cmd_wblk cmd_wblk_ext cmd_labo cmd_attn cmd_init set_block_read
    set_block_write KeepsValid command
build_one-AllValid (Build.add_command_of c) l a v = All-snoc l.commands c v a
build_one-AllValid (Build.add_list_of from) l a v = add_all_commands-AllValid from.commands l a v
build_one-AllValid (Build.rreg addr) l a v =
    add_new-AllValid _ l (set_command-IsValid 0 addr 0 Command.create (omega arith)) v
build_one-AllValid (Build.rblk addr n) l a v =
    add_new-AllValid _ l
      (then_set 1 addr (set_block_read n) (omega arith) (λ c w. kept (bad_size n) c _ refl refl w))
      v
build_one-AllValid (Build.rblk_ext addr p) l a v =
    add_new-AllValid _ l (then_set 1 addr (set_block_ext p) (omega arith) (set_block_ext-IsValid p))
      v
build_one-AllValid (Build.wreg addr d) l a v =
    add_new-AllValid _ l (set_command-IsValid 2 addr d Command.create (omega arith)) v
build_one-AllValid (Build.wblk addr b) l a v =
    add_new-AllValid _ l
      (then_set 3 addr (set_block_write b) (omega arith)
        (λ c w. kept (bad_size (length b)) c _ refl refl w))
      v
build_one-AllValid (Build.wblk_ext addr p) l a v =
    add_new-AllValid _ l (then_set 3 addr (set_block_ext p) (omega arith) (set_block_ext-IsValid p))
      v
build_one-AllValid Build.labo l a v =
    add_new-AllValid _ l (set_command-IsValid 4 0 0 Command.create (omega arith)) v
build_one-AllValid Build.attn l a v =
    add_new-AllValid _ l (set_command-IsValid 5 0 0 Command.create (omega arith)) v
build_one-AllValid (Build.init addr d) l a v =
    add_new-AllValid _ l (set_command-IsValid 6 addr d Command.create (omega arith)) v
build_one-AllValid (Build.expect_status w m) l a v =
    set_last-AllValid _ l (λ c u. record { is_set_up = u.is_set_up; has_code = u.has_code }) v
build_one-AllValid (Build.expect_data w m) l a v = set_last_expect-AllValid _ l v
build_one-AllValid (Build.expect_done n) l a v = set_last_expect-AllValid _ l v
build_one-AllValid (Build.expect_block b) l a v = set_last_expect-AllValid _ l v
build_one-AllValid (Build.expect_block_masked b m) l a v = set_last_expect-AllValid _ l v
build_one-AllValid (Build.expect_any e) l a v =
    set_last-AllValid _ l (λ c u. record { is_set_up = u.is_set_up; has_code = u.has_code }) v

build-All :
    (bs : List Build) (l : CommandList)
    → All AddsValid bs
    → AllValid l
    → OnSome AllValid (build bs l)
build-All [] l adds v = v
build-All (b ∷ bs) l (a, adds) v =
    OnSome-bind AllValid AllValid (build bs) (build_one b l) (build_one-AllValid b l a v)
      (λ l' w. build-All bs l' adds w)

-- All commands of a list that is built from an empty one are valid, when those are that are added as
-- they are.
pub build-AllValid :
    (bs : List Build) (l : CommandList)
    → All AddsValid bs
    → build bs create ≡ some l
    → All IsValid l.commands
unfolding AllValid create
build-AllValid bs l adds h = subst (OnSome AllValid) h (build-All bs create adds tt)
