-- ===== src/Rlink/Connect/Decode.antt =====
-- `RlinkConnect::DecodeResponse` and `DecodeAttnNotify`. A read behind the end of the packet, which
-- is undefined in the source, is `none`; `Response` shows that it does not happen.
use w.Base.{ℕ, ◌+◌, ◌%◌, ◌^◌, bit_or, Bool, true, false, not, ◌&&◌, ◌||◌, Option, none}
use w.Base.{some, List, [], ◌∷◌, is_empty, length, take, ltb, ◌==◌, if◌then◌else◌, ◌>>=◌}
use w.Rlink.Packet.Rcv.{Rcv, check_nak, check_size, get_byte, get_word, get_words, check_crc}
use w.Rlink.Command.{Command, command, block_size, block_words, store_words, set_flag_bit, set_data}
use w.Rlink.Command.{set_block_done, set_status, status_check, status_is_checked}
use w.Rlink.Command.Expect.{Expect, data_check, done_check, block_errors, data_is_checked}
use w.Rlink.Command.Expect.{done_is_checked}
use w.Rlink.Command.Code
use w.Rlink.Command.Flag
use w.Rlink.Connect.Stat
use w.Rlink.Connect.State.{Link, count, counts_if}

-- How the decoding of one command ends: `failed` is a `return -1`.
pub data Decoded : Type 0 where
  good failed : Command → Link → Decoded

-- A decode error: the flag of the command, a counter, a return.
abbrev pub fail : ℕ → ℕ → Command → Link → Decoded
fail flag stat c l = failed (set_flag_bit flag c) (count stat 1 l)

abbrev pub with_rcv : Rcv → Link → Link
with_rcv r l = record l { rcv = r }

-- What the `switch` over the command code reads: the changed command, or a length mismatch.
pub data Payload : Type 0 where
  payload : Command → Rcv → Payload
  bad_length : Rcv → Payload

unfoldable pub read_data_word : Command → Rcv → Option Payload
read_data_word c r = do (d, r') ← get_word r; some (payload (set_data d c) r')

unfoldable pub read_block : Command → Rcv → Option Payload
read_block c r = do
  (n, r1) ← get_word r
  if n == block_size c % 2 ^ 16
      then (do
        (ws, r2) ← get_words (block_size c) r1
        (dcnt, r3) ← get_word r2
        some (payload (set_block_done dcnt (store_words ws c)) r3))
      else some (bad_length r1)

unfoldable pub read_done_count : Command → Rcv → Option Payload
read_done_count c r = do (dcnt, r') ← get_word r; some (payload (set_block_done dcnt c) r')

unfoldable pub read_abort : Command → Rcv → Option Payload
read_abort c r = do (d, r') ← get_byte r; some (payload (set_data d c) r')

unfoldable pub read_payload : ℕ → Command → Rcv → Option Payload
read_payload ccode c r =
    if ccode == Code.rreg
    then read_data_word c r
    else (if ccode == Code.rblk
        then read_block c r
        else (if ccode == Code.wreg
            then some (payload c r)
            else (if ccode == Code.wblk
                then read_done_count c r
                else (if ccode == Code.labo
                    then read_abort c r
                    else (if ccode == Code.attn then read_data_word c r else some (payload c r))))))

-- Which of the checks of an expectation fail.
unfoldable pub data_fails : ℕ → Expect → Command → Bool
data_fails ccode e c =
    if (ccode == Code.rreg) || (ccode == Code.labo) || (ccode == Code.attn)
    then not (data_check e c.data_word)
    else (if ccode == Code.rblk
        then not (block_errors e (take c.block_done (block_words c)) == 0)
        else false)

abbrev pub is_block : ℕ → Bool
is_block ccode = (ccode == Code.rblk) || (ccode == Code.wblk)

unfoldable pub done_fails : ℕ → Expect → Command → Bool
done_fails ccode e c = is_block ccode && not (done_check e c.block_done)

-- `BlockCheck` looks at `BlockDone()` words, as far as values are expected for them. Where these are
-- more than the block holds, it reads behind the block.
abbrev pub reads_behind : ℕ → Expect → Command → Bool
reads_behind ccode e c =
    (ccode == Code.rblk)
    && ltb (block_size c) c.block_done
    && ltb (block_size c) (length e.block_val)

abbrev pub flag_if : Bool → ℕ → Command → Command
flag_if b mask c = if b then set_flag_bit mask c else c

abbrev pub count_expect : ℕ → Expect → Link → Link
count_expect ccode e l =
    if is_block ccode
    then counts_if (done_is_checked e) Stat.n_exp_done
        (counts_if (not (is_empty e.block_val)) Stat.n_exp_data l)
    else counts_if (data_is_checked e) Stat.n_exp_data l

-- The expect handling of a command whose response is complete.
unfoldable pub check_expect : ℕ → Option Expect → Command → Link → Option (Command × Link)
check_expect ccode none c l = some (c, l)
check_expect ccode (some e) c l =
    let bad_data = data_fails ccode e c in
    let bad_done = done_fails ccode e c in
    if reads_behind ccode e c
    then none
    else some (
      flag_if bad_done Flag.chk_done (flag_if bad_data Flag.chk_data c),
      counts_if bad_done Stat.n_chk_done
          (counts_if bad_data Stat.n_chk_data (count_expect ccode e l)),
    )

unfoldable pub check_status : Command → Link → Command × Link
check_status c l =
    let bad = not (status_check c) in
    (
      flag_if bad Flag.chk_stat c,
      counts_if bad Stat.n_chk_stat (
          counts_if (not (status_is_checked c)) Stat.n_no_exp_stat
            (counts_if c.expect_status_set Stat.n_exp_stat l)),
    )

-- The checksum is right: the command is done, and its checks are made.
unfoldable pub run_checks : ℕ → Command → Link → Option Decoded
run_checks ccode c l = do
  (c1, l1) ← check_expect ccode c.expect (set_flag_bit Flag.done c) l
  let checked = check_status c1 l1
  some (good checked.0 checked.1)

abbrev pub after_crc : ℕ → Command → Link → Bool → Option Decoded
after_crc ccode c l same =
    if same then run_checks ccode c l else some (fail Flag.err_dec Stat.n_err_crc c l)

-- The rest of a pass, once the payload is read: status, checksum, checks.
unfoldable pub finish_command : ℕ → Command → Rcv → Link → Option Decoded
finish_command ccode c r l = do
  (stat, r1) ← get_byte r
  (same, r2) ← check_crc r1
  after_crc ccode (set_status stat c) (with_rcv r2 l) same

abbrev pub after_payload : ℕ → Command → Link → Payload → Option Decoded
after_payload ccode old l (payload c r) = finish_command ccode c r l
after_payload ccode old l (bad_length r) =
    some (fail Flag.err_dec Stat.n_err_len old (with_rcv r l))

-- The request byte is read: it is the command's own, or the response is for another one.
unfoldable pub after_request : Command → Link → ℕ → Rcv → Option Decoded
after_request c l code r =
    if not (code == c.request)
    then some (fail Flag.err_dec Stat.n_err_cmd c (with_rcv r l))
    else (read_payload (command c) c r >>= after_payload (command c) c l)

-- One pass of the loop, for a command that no `labo` has cancelled.
unfoldable pub decode_one : Command → Link → Option Decoded
decode_one c l =
    if check_nak l.rcv
    then some (fail Flag.err_nak Stat.n_err_nak c l)
    else (if not (check_size c.rcv_size l.rcv)
        then some (fail Flag.err_dec Stat.n_err_miss c l)
        else (get_byte l.rcv >>= λ (code, r). after_request c l code r))

-- `labo` is the index in the list of the command that aborted it.
abbrev pub labo_after : ℕ → Command → Option ℕ → Option ℕ
labo_after i c labo = if (command c == Code.labo) && not (c.data_word == 0) then some i else labo

-- The count of decoded commands, or `none` for -1, with the commands, the abort index and the state.
pub record Decoding : Type 0 where
  pub n_cmd : Option ℕ
  pub commands : List Command
  pub labo : Option ℕ
  pub link : Link

-- Joins a pass that came to an end with the passes behind it.
abbrev pub behind : Command → Option Decoding → Option Decoding
behind c none = none
behind c (some d) = some (record d { commands = c ∷ d.commands })

abbrev pub settle :
    ℕ
    → ℕ
    → Option ℕ
    → List Command
    → (Option ℕ → Link → ℕ → Option Decoding)
    → Option Decoded
    → Option Decoding
settle i n labo cs loop none = none
settle i n labo cs loop (some (failed c l)) =
    some (record { n_cmd = none; commands = c ∷ cs; labo = labo; link = l })
settle i n labo cs loop (some (good c l)) = behind c (loop (labo_after i c labo) l (n + 1))

-- The loop from index `i` on, with `n` commands counted. Behind an active `labo` the commands are
-- only marked.
unfoldable pub decode_loop : List Command → ℕ → Option ℕ → Link → ℕ → Option Decoding
decode_loop [] i labo l n = some (record { n_cmd = some n; commands = []; labo = labo; link = l })
decode_loop (c ∷ cs) i (some k) l n =
    behind (set_flag_bit (bit_or Flag.done Flag.labo) c) (decode_loop cs (i + 1) (some k) l (n + 1))
decode_loop (c ∷ cs) i none l n = settle i n none cs (decode_loop cs (i + 1)) (decode_one c l)

unfoldable pub decode_response : List Command → ℕ → Option ℕ → Link → Option Decoding
decode_response cs ibeg labo l = decode_loop cs ibeg labo l 0

-- The result of `DecodeAttnNotify`, with the pattern of attentions.
unfoldable pub decode_attn_notify : Link → Option (Bool × ℕ × Link)
decode_attn_notify l =
    if not (check_size (2 + 2) l.rcv) then some (false, 0, count Stat.n_err_miss 1 l) else (do
      (apat, r1) ← get_word l.rcv
      (same, r2) ← check_crc r1
      if same
          then some (true, apat, with_rcv r2 l)
          else some (false, apat, count Stat.n_err_crc 1 (with_rcv r2 l)))
