-- ===== src/Rlink/Connect/Encode.antt =====
-- `RlinkConnect::EncodeRequest`. The commands from `ibeg` to `iend` are a list of their own.
-- An exception is `none`.
use w.Base.{ℕ, ◌+◌, ◌*◌, ◌%◌, ◌^◌, bit_or, Option, none, some, List, [], ◌∷◌, get_or, ◌==◌}
use w.Base.{if◌then◌else◌, ◌>>=◌}
use w.Rlink.Packet.Snd.{put_byte, put_word, put_words, put_crc}
use w.Rlink.Packet.Snd
use w.Rlink.Command.{Command, command, block_size, block_words, set_seq_number, set_rcv_size}
use w.Rlink.Command.{set_flag_bit, clear_flag_bit}
use w.Rlink.Command.Code
use w.Rlink.Command.Flag
use w.Rlink.Connect.Stat
use w.Rlink.Connect.State.{Link, count, on_snd, bump_seq}

-- The `switch`: the size of the response, and what goes into the packet behind the request byte.
unfoldable pub encode_args : ℕ → Command → Link → Option (Command × Link)
encode_args ccode c l =
    let n = block_size c in
    if ccode == Code.rreg
    then some (set_rcv_size (1 + 2 + 1 + 2) c, on_snd (put_word c.address) (count Stat.n_rreg 1 l))
    else (if ccode == Code.rblk
        then some (
          set_rcv_size (1 + 2 + 2 * n + 2 + 1 + 2) c,
          on_snd (λ s. put_word (n % 2 ^ 16) (put_word c.address s))
              (count Stat.n_rblk_word n (count Stat.n_rblk 1 l)),
        )
        else (if ccode == Code.wreg
            then some (
              set_rcv_size (1 + 1 + 2) c,
              on_snd (λ s. put_word c.data_word (put_word c.address s)) (count Stat.n_wreg 1 l),
            )
            else (if ccode == Code.wblk
                then some (
                  set_rcv_size (1 + 2 + 1 + 2) c,
                  on_snd
                      (λ s.
                        put_words (block_words c)
                          (put_crc (put_word (n % 2 ^ 16) (put_word c.address s))))
                      (count Stat.n_wblk_word n (count Stat.n_wblk 1 l)),
                )
                else (if ccode == Code.labo
                    then some (set_rcv_size (1 + 1 + 1 + 2) c, count Stat.n_labo 1 l)
                    else (if ccode == Code.attn
                        then some (set_rcv_size (1 + 2 + 1 + 2) c, count Stat.n_attn 1 l)
                        else (if ccode == Code.init
                            then some (
                              set_rcv_size (1 + 1 + 2) c,
                              on_snd (λ s. put_word c.data_word (put_word c.address s))
                                  (count Stat.n_init 1 l),
                            )
                            else none))))))

-- One pass of the loop.
unfoldable pub encode_one : Command → Link → Option (Command × Link)
encode_one c l =
    let ccode = command c in
    let c1 = set_seq_number (get_or l.seq_numbers ccode 0) c in
    let c2 = clear_flag_bit (bit_or Flag.pkt_beg Flag.pkt_end) c1 in
    let l1 = bump_seq ccode (count Stat.n_cmd 1 l) in
    do
      (c3, l2) ← encode_args ccode c2 (on_snd (put_byte c2.request) l1)
      some (set_flag_bit Flag.send c3, on_snd put_crc l2)

unfoldable pub encode_loop : List Command → Link → Option (List Command × Link)
encode_loop [] l = some ([], l)
encode_loop (c ∷ cs) l = do
  (c', l1) ← encode_one c l
  (cs', l2) ← encode_loop cs l1
  some (c' ∷ cs', l2)

abbrev pub mark_first : List Command → List Command
mark_first [] = []
mark_first (c ∷ cs) = set_flag_bit Flag.pkt_beg c ∷ cs

abbrev pub mark_last : List Command → List Command
mark_last [] = []
mark_last (c ∷ []) = set_flag_bit Flag.pkt_end c ∷ []
mark_last (c ∷ d ∷ cs) = c ∷ mark_last (d ∷ cs)

unfoldable pub encode_request : List Command → Link → Option (List Command × Link)
encode_request cs l = do
  (cs', l') ← encode_loop cs (on_snd Snd.init l)
  some (mark_last (mark_first cs'), l')
