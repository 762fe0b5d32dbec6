-- ===== src/Rlink/Connect/Stat.antt =====
-- The counters of RlinkConnect.hpp, by index.
use w.Base.{ℕ}

abbrev pub n_exec : ℕ
n_exec = 0

abbrev pub n_exec_part : ℕ
n_exec_part = 1

abbrev pub n_cmd : ℕ
n_cmd = 2

abbrev pub n_rreg : ℕ
n_rreg = 3

abbrev pub n_rblk : ℕ
n_rblk = 4

abbrev pub n_wreg : ℕ
n_wreg = 5

abbrev pub n_wblk : ℕ
n_wblk = 6

abbrev pub n_labo : ℕ
n_labo = 7

abbrev pub n_attn : ℕ
n_attn = 8

abbrev pub n_init : ℕ
n_init = 9

abbrev pub n_rblk_word : ℕ
n_rblk_word = 10

abbrev pub n_wblk_word : ℕ
n_wblk_word = 11

abbrev pub n_exp_data : ℕ
n_exp_data = 12

abbrev pub n_exp_done : ℕ
n_exp_done = 13

abbrev pub n_exp_stat : ℕ
n_exp_stat = 14

abbrev pub n_no_exp_stat : ℕ
n_no_exp_stat = 15

abbrev pub n_chk_data : ℕ
n_chk_data = 16

abbrev pub n_chk_done : ℕ
n_chk_done = 17

abbrev pub n_chk_stat : ℕ
n_chk_stat = 18

abbrev pub n_snd_oob : ℕ
n_snd_oob = 19

abbrev pub n_err_miss : ℕ
n_err_miss = 20

abbrev pub n_err_cmd : ℕ
n_err_cmd = 21

abbrev pub n_err_len : ℕ
n_err_len = 22

abbrev pub n_err_crc : ℕ
n_err_crc = 23

abbrev pub n_err_nak : ℕ
n_err_nak = 24
