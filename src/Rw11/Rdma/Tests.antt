-- ===== src/Rw11/Rdma/Tests.antt =====
-- A transfer of ten words in chunks of four.
use w.Base.{ℕ, ◌≡◌, refl, true, false, some, List, [], arith}
use w.Rw11.Rdma.{Rdma, Status, Request, setup_rdma, run_rdma}
use w.Rw11.Rdma.Laws.{Covers, transfer-ends}

abbrev idle : Rdma
idle = record {
  chunksize = 0;
  status = Status.done;
  is_w_mem = false;
  addr = 0;
  mode = 0;
  n_word_max = 0;
  n_word_rest = 0;
  n_word_done = 0;
  block_at = 0;
  stats = [];
}

abbrev started : Rdma
started = record idle {
  chunksize = 4;
  status = Status.busy;
  is_w_mem = true;
  addr = 512;
  mode = 7;
  n_word_max = 4;
  n_word_rest = 10;
}

abbrev all_words : Request → ℕ
all_words q = q.n_words

transfer-ends_example :
    (qs : List Request) × (last : Rdma) × (run_rdma all_words 11 started ≡ some (qs, last))
    × Covers true 512 0 10 4 qs
    × (last.status ≡ Status.done)
    × (last.n_word_done ≡ 10)
    × (last.n_word_rest ≡ 0)
unfolding setup_rdma
transfer-ends_example =
    transfer-ends all_words 4 512 10 7 true idle started (λ q. refl) refl (omega arith)
      (omega arith)
