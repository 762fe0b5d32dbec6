-- ===== src/Rlink/Tests.antt =====
-- The codes of librlink on concrete data.
use w.Base.{ℕ, ◌+◌, ◌*◌, ◌^◌, ◌≤◌, ◌<◌, ◌%◌, ◌≡◌, refl, true, false, none, some}
use w.Base.{List, [], ◌∷◌, ◌++◌, length, All, bit_xor, arith}
use w.Rlink.Crc16.{add_all, add_data}
use w.Rlink.Crc16.Division.{divide, add_all-divide}
use w.Rlink.Crc16.Detection.{one_byte_detected}
use w.Rlink.Packet.{code_byte, ecode}
use w.Rlink.Packet.Ec
use w.Rlink.Packet.Snd
use w.Rlink.Packet.Rcv
use w.Rlink.Packet.Rcv.{process_data, accept_packet, check_nak}
use w.Rlink.Packet.Bytewise.{feed}
use w.Rlink.Packet.Process.{process_data-feed}
use w.Rlink.Packet.RoundTrip.{process-frame, Received}
use w.Rlink.Packet.Codes.{IsQuiet, ecode-code_byte, frame_packet-IsQuiet, length-frame_packet}
use w.Rlink.Command
use w.Rlink.Command.{Command, set_rcv_size, command, seq_number, set_seq_number, block_size}
use w.Rlink.Command.Laws.{set_seq_number_lem}
use w.Rlink.Connect.State.{Link}
use w.Rlink.Connect.Encode.{encode_args, encode_request, mark_first, mark_last}
use w.Rlink.Connect.Decode.{decode_response, decode_one, Decoding}
use w.Rlink.Connect.Reading.{Left}
use w.Rlink.Connect.Request.{encode_request-requests, encode_args-sized}
use w.Rlink.Connect.Request.{requests, sent_commands}
use w.Rlink.Connect.Response.{Decodes, response, decode_one-response}
use w.Rlink.Connect.Response.Payload.{Answer, Fits}
use w.Rlink.Connect.Answers.{Asked, Outcome, commands_of, responses, decode_response-responses}

-- A message with all bytes that need escaping.
abbrev message : List ℕ
message = 17 ∷ 19 ∷ 202 ∷ 171 ∷ 0 ∷ 255 ∷ []

abbrev pub sender : Snd.Snd
sender = record {
  pkt_buf = message;
  crc = 0;
  flags = 0;
  stats = [];
  xon_escape = true;
  raw_buf = [];
}

abbrev pub receiver : Rcv.Rcv
receiver = record {
  pkt_buf = [];
  crc = 0;
  flags = 0;
  stats = [];
  raw = [];
  state = Rcv.idle;
  n_done = 0;
  esc_seen = false;
  nak_index = none;
  nak_code = 0;
  drop_data = [];
}

add_all-divide_example : add_all 7 message ≡ divide 7 message
add_all-divide_example =
    add_all-divide 7 message (omega arith)
      (omega arith, (omega arith, (omega arith, (omega arith, (omega arith, (omega arith, tt))))))

one_byte_detected_example : ◌≡◌ {A = ℕ} 5 5
unfolding add_all add_data
one_byte_detected_example =
    one_byte_detected 0 (1 ∷ []) 5 5 (7 ∷ []) (omega arith) (omega arith) (omega arith)
      (omega arith, tt) refl

process-frame_example :
    (out : Rcv.Rcv) × (process_data
        (record (accept_packet receiver) { raw = (Snd.frame_packet sender).raw_buf ++ (1 ∷ []) })
      ≡ some (true, out))
    × Received receiver message (1 ∷ []) out
process-frame_example = process-frame sender receiver (1 ∷ []) refl

process_data-feed_example :
    process_data (record receiver { raw = message })
    ≡ some (true, feed message (record receiver { raw = message }))
process_data-feed_example = process_data-feed (record receiver { raw = message }) refl

ecode-code_byte_example :
    (ecode (code_byte 3) ≡ 3) × (ecode (bit_xor (code_byte 3) (2 ^ 5)) ≡ Ec.clobber)
ecode-code_byte_example = ecode-code_byte 3 5 (omega arith) (omega arith)

frame_packet-IsQuiet_example : All IsQuiet (Snd.frame_packet sender).raw_buf
frame_packet-IsQuiet_example = frame_packet-IsQuiet sender refl

length-frame_packet_example : length (Snd.frame_packet sender).raw_buf ≤ 2 * 6 + 4
length-frame_packet_example = length-frame_packet sender

-- A register write.
abbrev pub wreg : Command.Command
wreg = record {
  request = 2;
  address = 513;
  data_word = 4660;
  block = [];
  block_ext = none;
  block_done = 0;
  status = 0;
  flags = 1;
  rcv_size = 4;
  expect_status_set = false;
  expect_status_val = 0;
  expect_status_msk = 0;
  expect = none;
}

-- A list abort.
abbrev pub labo : Command.Command
labo = record wreg { request = 4; rcv_size = 5 }

abbrev pub done : Answer
done = record { word = 1; words = []; n_words = 0; status = 3 }

abbrev asked : List Asked
asked = (wreg, done) ∷ (labo, done) ∷ (wreg, done) ∷ []

abbrev pub link : Link
link = record {
  snd = sender;
  rcv = record receiver { pkt_buf = responses 0 asked ++ (9 ∷ []) };
  seq_numbers = 30 ∷ 0 ∷ 255 ∷ 0 ∷ 0 ∷ 0 ∷ 0 ∷ 0 ∷ [];
  stats = [];
}

wreg-Fits : Fits wreg done
unfolding block_size command
wreg-Fits = record {
  word_small = omega arith;
  words_small = tt;
  n_words_small = omega arith;
  size_small = omega arith;
  same_size = λ e. refl;
  in_block = omega arith;
}

labo-Fits : Fits labo done
unfolding block_size command
labo-Fits = record {
  word_small = omega arith;
  words_small = tt;
  n_words_small = omega arith;
  size_small = omega arith;
  same_size = λ e. refl;
  in_block = omega arith;
}

set_seq_number_lem_example :
    (command (set_seq_number 37 labo) ≡ command labo)
    × (seq_number (set_seq_number 37 labo) ≡ 37 % 32)
    × ((set_seq_number 37 labo).request < 256)
set_seq_number_lem_example = set_seq_number_lem 37 labo (omega arith) (omega arith)

encode_request-requests_example :
    (after : Link) × (encode_request (wreg ∷ labo ∷ []) link
      ≡ some (mark_last (mark_first (sent_commands link.seq_numbers (wreg ∷ labo ∷ []))), after))
    × (after.snd.pkt_buf ≡ requests 0 link.seq_numbers (wreg ∷ labo ∷ []))
    × (after.rcv ≡ link.rcv)
unfolding command
encode_request-requests_example =
    encode_request-requests (wreg ∷ labo ∷ []) link (omega arith, (omega arith, tt))

encode_args-sized_example :
    (c' : Command) × (l' : Link) × (encode_args 4 labo link ≡ some (c', l'))
    × (c' ≡ set_rcv_size 5 labo)
unfolding command
encode_args-sized_example = encode_args-sized 4 labo link done refl (omega arith) labo-Fits

abbrev single : Link
single = record link { rcv = record receiver { pkt_buf = response 0 wreg done ++ (9 ∷ []) } }

decode_one-response_example : Decodes wreg done single (9 ∷ []) (decode_one wreg single)
unfolding command check_nak
decode_one-response_example =
    decode_one-response wreg done single (9 ∷ []) (omega arith) wreg-Fits refl (omega arith) refl

decode_response-responses_example :
    (d : Decoding) × (decode_response (commands_of asked) 0 none link ≡ some d)
    × (d.n_cmd ≡ some 3)
    × Outcome asked d.commands
    × Left d.link.rcv (9 ∷ [])
unfolding command
decode_response-responses_example =
    decode_response-responses asked 0 link (9 ∷ [])
      (
        (omega arith, wreg-Fits, omega arith),
        ((omega arith, labo-Fits, omega arith), ((omega arith, wreg-Fits, omega arith), tt)),
      )
      refl refl
