-- ===== src/Rw11/Rdma.antt =====
-- tools/src/librw11/Rw11Rdma.cpp: a transfer between a buffer and the memory of the CPU in chunks,
-- one for each call of the handler. The command list of a chunk is its request; the count of words
-- that it transfers is what the CPU answers. The callbacks and hooks are not part of the state; a
-- callback may have extended the command list, which is counted.
pub mod Laws
pub mod Tests
use w.Base.{ℕ, zero, suc, ◌+◌, ◌-◌, ◌*◌, ◌%◌, ◌^◌, Bool, true, false, not, ◌||◌, Option, none, some}
use w.Base.{List, [], ◌∷◌, ◌==◌, ltb, leb, if◌then◌else◌, ◌>>=◌}
use w.Rlink.Stats.{Stats, inc}

pub data Status : Type 0 where
  done busy busy_last fail_rdma : Status

-- `block_at` is how far `fpBlock` is behind the start of the caller's block.
pub record Rdma : Type 0 where
  pub chunksize : ℕ
  pub status : Status
  pub is_w_mem : Bool
  pub addr : ℕ
  pub mode : ℕ
  pub n_word_max : ℕ
  pub n_word_rest : ℕ
  pub n_word_done : ℕ
  pub block_at : ℕ
  pub stats : Stats

abbrev pub is_busy : Status → Bool
is_busy Status.busy = true
is_busy _ = false

abbrev pub is_active : Status → Bool
is_active Status.done = false
is_active _ = true

abbrev tally : ℕ → Rdma → Rdma
tally i r = record r { stats = inc i 1 r.stats }

-- `prudent` is `Connect().BlockSizePrudent()`.
unfoldable set_chunk_size : Bool → ℕ → ℕ → Rdma → Rdma
set_chunk_size started prudent chunk r =
    let cmax = if started then prudent else 0 in
    record r { chunksize = if (chunk == 0) || ltb cmax chunk then cmax else chunk }

-- `none` is an exception.
unfoldable pub setup_rdma : ℕ → Bool → ℕ → ℕ → ℕ → Rdma → Option Rdma
setup_rdma prudent iswmem addr size mode r =
    let chunk = if r.chunksize == 0 then prudent else r.chunksize in
    if is_active r.status
    then none
    else some (record r {
      chunksize = chunk;
      status = Status.busy;
      is_w_mem = iswmem;
      addr = addr;
      mode = mode;
      n_word_max = chunk;
      n_word_rest = size;
      n_word_done = 0;
      block_at = 0;
    })

-- The counters are kStatNQueRMem and kStatNQueWMem.
unfoldable pub queue_rmem : ℕ → ℕ → ℕ → ℕ → Rdma → Option Rdma
queue_rmem prudent addr size mode r = setup_rdma prudent false addr size mode (tally 0 r)

unfoldable pub queue_wmem : ℕ → ℕ → ℕ → ℕ → Rdma → Option Rdma
queue_wmem prudent addr size mode r = setup_rdma prudent true addr size mode (tally 1 r)

-- What a chunk asks for: direction, address, place in the block, count of words.
pub record Request : Type 0 where
  pub to_memory : Bool
  pub address : ℕ
  pub place : ℕ
  pub n_words : ℕ

abbrev pub next_words : Rdma → ℕ
next_words r = if ltb r.n_word_max r.n_word_rest then r.n_word_max else r.n_word_rest

abbrev pub request : Rdma → Request
request r = record {
  to_memory = r.is_w_mem;
  address = r.addr;
  place = r.block_at;
  n_words = next_words r;
}

-- The positions behind the words that are done. The rest wraps around as a `size_t` does.
abbrev pub advanced : ℕ → Rdma → Rdma
advanced nwdone r = record r {
  addr = (r.addr + 2 * nwdone) % 2 ^ 32;
  n_word_rest = (r.n_word_rest + (2 ^ 64 - nwdone)) % 2 ^ 64;
  n_word_done = r.n_word_done + nwdone;
  block_at = r.block_at + nwdone;
}

-- The state behind the request of `nwnext` words, of which `nwdone` are done.
abbrev pub transferred : Bool → ℕ → ℕ → Rdma → Rdma
transferred extended nwnext nwdone r =
    let r1 = tally (if r.is_w_mem then 3 else 2) r in
    let r2 = record r1 {
      status = if nwnext == r.n_word_rest then Status.busy_last else r.status;
    } in
    advanced nwdone (if extended then tally 4 r2 else r2)

-- The result of the handler, true for another call.
abbrev pub handled : ℕ → ℕ → Rdma → Bool × Rdma
handled nwnext nwdone r =
    if not (nwnext == nwdone)
    then (false, record (tally 5 r) { status = Status.done })
    else (if r.n_word_rest == 0
        then (false, record r { status = Status.done })
        else (if is_busy r.status then (true, r) else (false, record r { status = Status.done })))

unfoldable pub rdma_handler : Bool → ℕ → Rdma → Bool × Rdma
rdma_handler extended nwdone r =
    let nwnext = next_words r in handled nwnext nwdone (transferred extended nwnext nwdone r)

-- The server calls the handler until it returns 0; `answer` is what the CPU does of a request.
-- `none` is fuel that does not last.
unfoldable pub run_rdma : (Request → ℕ) → ℕ → Rdma → Option (List Request × Rdma)
run_rdma answer zero r = none
run_rdma answer (suc fuel) r =
    let (more, r') = rdma_handler false (answer (request r)) r in
    let rest = run_rdma answer fuel r' in
    if more then (do (qs, last) ← rest; some (request r ∷ qs, last)) else some (request r ∷ [], r')
