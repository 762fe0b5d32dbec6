-- ===== src/Rlink/Connect/Tests.antt =====
-- RlinkConnect.cpp on concrete data: a list of two commands, executed.
use w.Base.{ℕ, ◌≡◌, refl, true, none, some, List, [], ◌∷◌}
use w.Base.{length, map, All, arith}
use w.Rlink.Tests.{receiver, link, sender, wreg, labo, done}
use w.Rlink.Packet.Snd
use w.Rlink.Packet.Snd.{frame_packet, Port}
use w.Rlink.Packet.Rcv.{ReadResult, accept_packet}
use w.Rlink.Command.{Command, command, block_size, cmd_rreg, set_command}
use w.Rlink.Command
use w.Rlink.CommandList.{CommandList}
use w.Rlink.CommandList
use w.Rlink.CommandList.{add_rreg, add_new, add_command, set_last_expect_status, set_last}
use w.Rlink.CommandList.Laws.{Build, AddsValid}
use w.Rlink.Connect.Exec.Built.{build-prepare_all}
use w.Rlink.Context.{Context}
use w.Rlink.Connect.Answers.{Asked, Outcome, responses, Ready}
use w.Rlink.Connect.Packets.{Connect, Server, Arrival, process_unsolicited_data, read_response}
use w.Rlink.Connect.Packets.Ends.{process_unsolicited_data-ends}
use w.Rlink.Connect.Packets.Response.{Reads, last_clock, read_response-Reads}
use w.Rlink.Connect.Exec.{exec, tally, prepare_all, cleaned}
use w.Rlink.Connect.Exec.EndToEnd.{exec-answers, IsFresh, IsAccepted, Accepts, wire}

-- A notify with the pattern 3, a stray byte, and the start of another packet.
abbrev noise : List ℕ
noise = 202 ∷ 155 ∷ 3 ∷ 0 ∷ 7 ∷ 202 ∷ 129 ∷ 1 ∷ []

abbrev connect : Connect
connect = record {
  link = link;
  is_open = true;
  server = Server.absent;
  signaled = [];
  attn_noti_patt = 0;
  timeout = 1000;
}

abbrev idle_connect : Connect
idle_connect = record connect { link = record link { rcv = receiver } }

abbrev noisy : Connect
noisy = record connect { link = record link { rcv = record receiver { raw = noise } } }

process_unsolicited_data-ends_example :
    (d : Connect) × (process_unsolicited_data noisy ≡ some d) × (d.link.rcv.raw ≡ [])
process_unsolicited_data-ends_example = process_unsolicited_data-ends noisy

abbrev arrivals : List Arrival
arrivals =
    record { input = ReadResult.bytes noise; clock = 10 }
    ∷ record { input = ReadResult.tout; clock = 1010 }
    ∷ []

read_response-Reads_example : Reads (read_response 1000 0 arrivals idle_connect)
unfolding last_clock
read_response-Reads_example =
    read_response-Reads 1000 0 arrivals idle_connect refl refl (omega arith)

abbrev calls : List Build
calls = Build.add_command_of labo ∷ Build.rreg 16 ∷ Build.expect_status 0 7 ∷ []

abbrev built : CommandList
built = record {
  commands =
      labo
      ∷ (record {
        request = 0;
        address = 16;
        data_word = 0;
        block = [];
        block_ext = none;
        block_done = 0;
        status = 0;
        flags = 1;
        rcv_size = 0;
        expect_status_set = true;
        expect_status_val = 0;
        expect_status_msk = 7;
        expect = none;
      })
      ∷ [];
  labo_index = none;
}

abbrev context : Context
context = record { status_val = 0; status_msk = 7; err_cnt = 2 }

calls-AddsValid : All AddsValid calls
unfolding command
calls-AddsValid = (record { is_set_up = refl; has_code = omega arith }, (tt, (tt, tt)))

build-prepare_all_example :
    prepare_all Server.active_inside context built.commands
    ≡ some (map (cleaned context) built.commands)
unfolding add_rreg add_new add_command set_last_expect_status set_last cmd_rreg set_command
    Command.create CommandList.create
build-prepare_all_example =
    build-prepare_all calls built Server.active_inside context calls-AddsValid refl refl

abbrev pair : List Command
pair = wreg ∷ labo ∷ []

-- The same, as they wait for their responses, with the answers.
abbrev asked : List Asked
asked =
    (record wreg { request = 250; flags = 19; expect_status_msk = 7 }, done)
    ∷ (record labo { flags = 35; expect_status_msk = 7 }, done)
    ∷ []

abbrev device : Snd.Snd
device = record sender { pkt_buf = responses 0 asked }

abbrev port : Port
port raw = some (length raw)

abbrev answered : List Arrival
answered = record { input = ReadResult.bytes (wire device noise); clock = 5 } ∷ []

asked-Ready : All Ready asked
unfolding command block_size
asked-Ready = (
  (
    omega arith,
    record {
      word_small = omega arith;
      words_small = tt;
      n_words_small = omega arith;
      size_small = omega arith;
      same_size = λ e. refl;
      in_block = omega arith;
    },
    omega arith,
  ),
  (
    (
      omega arith,
      record {
        word_small = omega arith;
        words_small = tt;
        n_words_small = omega arith;
        size_small = omega arith;
        same_size = λ e. refl;
        in_block = omega arith;
      },
      omega arith,
    ),
    tt,
  ),
)

idle_connect-IsFresh : IsFresh idle_connect.link.rcv
unfolding accept_packet
idle_connect-IsFresh = record { accepted = refl; no_raw = refl; no_esc = refl }

port-Accepts : Accepts port
unfolding Accepts
port-Accepts raw = refl

pair-IsAccepted : All (IsAccepted Server.absent) pair
unfolding command
pair-IsAccepted = (
  record { is_set_up = refl; has_code = omega arith; attn_inside = refl },
  (record { is_set_up = refl; has_code = omega arith; attn_inside = refl }, tt),
)

exec-answers_example :
    (after : CommandList) × (c : Connect) × (exec port 0 answered
        (record { commands = pair; labo_index = none })
        context
        idle_connect
      ≡ some (true, after, tally after.commands context, c))
    × Outcome asked after.commands
    × (c.link.rcv.raw ≡ [])
unfolding command Command.set_seq_number
exec-answers_example =
    exec-answers port asked device noise 0 5 [] (record { commands = pair; labo_index = none })
      context idle_connect port-Accepts refl (omega arith) refl idle_connect-IsFresh pair-IsAccepted
      refl asked-Ready refl
