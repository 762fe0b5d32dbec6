-- ===== src/Rlink/Connect/Exec.antt =====
-- `RlinkConnect::Exec` and `ExecPart`: a list of commands is checked, sent in one packet, and holds
-- the answers afterwards. An exception is `none`; a write that fails is false.
pub mod EndToEnd
pub mod Built
use w.Base.{
  ℕ, ◌+◌, ◌-◌, Bool, true, false, not, ◌&&◌, ◌||◌, Option, none, some, List, [], ◌∷◌, ◌++◌,
}
use w.Base.{bit_or, length, is_empty, take, drop, ◌==◌, ltb, leb, if◌then◌else◌, ◌>>=◌}
use w.Rlink.Packet.Snd.{Port, snd_packet}
use w.Rlink.Command.{Command, command, test_flag_any, clear_flag_bit, set_expect_status_default}
use w.Rlink.Command.Flag
use w.Rlink.Command.Code
use w.Rlink.CommandList.{CommandList, size, clear_labo_index}
use w.Rlink.Context.{Context, inc_error_count}
use w.Rlink.Connect.Stat
use w.Rlink.Connect.State.{Link, count}
use w.Rlink.Connect.Encode.{encode_request}
use w.Rlink.Connect.Decode.{Decoding, decode_response}
use w.Rlink.Connect.Packets.{Connect, Server, is_outside, Arrival, read_response, accept_response}

-- The commands from `ibeg` to `iend`, and the list with others in their place.
abbrev pub part : ℕ → ℕ → List Command → List Command
part ibeg iend cs = take (iend - ibeg + 1) (drop ibeg cs)

abbrev pub put_part : ℕ → ℕ → List Command → List Command → List Command
put_part ibeg iend new cs = take ibeg cs ++ (new ++ drop (iend + 1) cs)

abbrev pub all_decoded : Option ℕ → ℕ → Bool
all_decoded none n = false
all_decoded (some k) n = k == n

-- What follows the sending in `ExecPart`. The result of `ReadResponse` is not looked at.
unfoldable pub receive_part :
    ℕ
    → List Arrival
    → ℕ
    → ℕ
    → List Command
    → CommandList
    → Connect
    → Option (Bool × CommandList × Connect)
receive_part now xs ibeg iend sent cl c = do
  (ok, c1) ← read_response (now + c.timeout) now xs c
  d ← decode_response sent ibeg cl.labo_index c1.link
  if all_decoded d.n_cmd (iend - ibeg + 1)
      then (do
        c2 ← accept_response (record c1 { link = d.link })
        some (
          true,
          record { commands = put_part ibeg iend d.commands cl.commands; labo_index = d.labo },
          c2,
        ))
      else none

unfoldable pub exec_part :
    Port → ℕ → List Arrival → ℕ → ℕ → CommandList → Connect → Option (Bool × CommandList × Connect)
exec_part write now xs ibeg iend cl c =
    if ltb iend ibeg || leb (size cl) iend
    then none
    else (if not c.is_open then none else (do
      (cs, l) ← encode_request (part ibeg iend cl.commands) (count Stat.n_exec_part 1 c.link)
      let sent = snd_packet write l.snd
      let c1 = record c { link = record l { snd = sent.1 } }
      let cl1 = record cl { commands = put_part ibeg iend cs cl.commands }
      if not sent.0 then some (false, cl1, c1) else receive_part now xs ibeg iend cs cl1 c1))

-- The flags of an earlier execution; those of its checks are not among them.
abbrev pub old_flags : ℕ
old_flags = bit_or Flag.send (
    bit_or Flag.done (
      bit_or Flag.labo
        (bit_or Flag.pkt_beg (bit_or Flag.pkt_end (bit_or Flag.err_nak Flag.err_dec)))))

abbrev pub cleaned : Context → Command → Command
cleaned x c =
    let d = clear_flag_bit old_flags c in
    if d.expect_status_set then d else set_expect_status_default x.status_val x.status_msk d

unfoldable pub prepare_one : Server → Context → Command → Option Command
prepare_one server x c =
    if not (test_flag_any Flag.setup c)
    then none
    else (if ltb Code.init (command c)
        then none
        else (if (command c == Code.attn) && is_outside server then none else some (cleaned x c)))

unfoldable pub prepare_all : Server → Context → List Command → Option (List Command)
prepare_all server x [] = some []
prepare_all server x (c ∷ cs) = do
  d ← prepare_one server x c
  ds ← prepare_all server x cs
  some (d ∷ ds)

abbrev pub check_found : Command → Bool
check_found c = test_flag_any (bit_or Flag.chk_stat (bit_or Flag.chk_data Flag.chk_done)) c

abbrev pub error_found : Command → Bool
error_found c = test_flag_any (bit_or Flag.err_nak Flag.err_dec) c

-- `IncErrorCount` for each command with a failed check or an error.
unfoldable pub tally : List Command → Context → Context
tally [] x = x
tally (c ∷ cs) x = tally cs (if check_found c || error_found c then inc_error_count 1 x else x)

abbrev pub after_part :
    Context
    → Option (Bool × CommandList × Connect)
    → Option (Bool × CommandList × Context × Connect)
after_part x none = none
after_part x (some (false, cl, c)) = some (false, cl, x, c)
after_part x (some (true, cl, c)) = some (true, cl, tally cl.commands x, c)

unfoldable pub exec :
    Port
    → ℕ
    → List Arrival
    → CommandList
    → Context
    → Connect
    → Option (Bool × CommandList × Context × Connect)
exec write now xs cl x c =
    if is_empty cl.commands
    then none
    else (if not c.is_open then none else (do
      cs ← prepare_all c.server x cl.commands
      after_part x (
          exec_part write now xs 0 (size cl - 1) (record { commands = cs; labo_index = none })
            (record c { link = count Stat.n_exec 1 c.link }))))

-- The `Exec` without an error message: false is an exception.
unfoldable pub exec_or_throw :
    Port
    → ℕ
    → List Arrival
    → CommandList
    → Context
    → Connect
    → Option (CommandList × Context × Connect)
exec_or_throw write now xs cl x c = do
  (ok, cl', x', c') ← exec write now xs cl x c
  if ok then some (cl', x', c') else none
