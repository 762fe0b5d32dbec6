-- ===== src/Rw11/Rdma/Laws.antt =====
-- A transfer of Rw11Rdma.cpp ends, and its chunks cover the block once and in order.
use w.Base.{ℕ, zero, suc, ◌+◌, ◌-◌, ◌*◌, ◌%◌, ◌^◌, ◌<◌, ◌≤◌, ◌≡◌, refl, sym, ap, subst, ◌∙◌}
use w.Base.{Bool, true, false, not, Option, none, some, List, [], ◌∷◌, ◌==◌, ==_refl, ltb}
use w.Base.{if◌then◌else◌, if_false, ◌>>=◌, bind_some, arith, Bool-cases, inl, inr}
use w.Rlink.Stats.{Stats, inc}
use w.Base.{ltb→lt, nlt→le}
use w.Rw11.Rdma.{
  setup_rdma, is_active, handled, transferred, Rdma, Status, Request, request, rdma_handler,
  run_rdma,
}

-- The requests for `n` words to or from address `a` and place `p`: full chunks of `c` words, and the
-- rest.
unfoldable pub Covers : Bool → ℕ → ℕ → ℕ → ℕ → List Request → Type 0
Covers w a p n c [] = ⊥
Covers w a p n c (q ∷ []) =
    (q ≡ record { to_memory = w; address = a; place = p; n_words = n }) × (n ≤ c)
Covers w a p n c (q ∷ r ∷ qs) =
    (q ≡ record { to_memory = w; address = a; place = p; n_words = c })
    × (c < n)
    × Covers w ((a + 2 * c) % 2 ^ 32) (p + c) (n - c) c (r ∷ qs)

-- A transfer of `n` words that goes on with chunks of `c`; `k` words are done.
abbrev busy_with : ℕ → ℕ → Stats → Bool → ℕ → ℕ → ℕ → ℕ → ℕ → Rdma
busy_with chunksize mode stats w a p n c k = record {
  chunksize = chunksize;
  status = Status.busy;
  is_w_mem = w;
  addr = a;
  mode = mode;
  n_word_max = c;
  n_word_rest = n;
  n_word_done = k;
  block_at = p;
  stats = stats;
}

words_more : (c n : ℕ) → c < n → (if ltb c n then c else n) ≡ c
words_more c n h = ground arith

words_last : (c n : ℕ) → n ≤ c → (if ltb c n then c else n) ≡ n
words_last c n h = ground arith

rest_more : (c n : ℕ) → c < n → n < 2 ^ 63 → (n + (2 ^ 64 - c)) % 2 ^ 64 ≡ n - c
rest_more c n h k = omega arith

rest_last : (n : ℕ) → n < 2 ^ 63 → (n + (2 ^ 64 - n)) % 2 ^ 64 ≡ 0
rest_last n h = omega arith

differ : (c n : ℕ) → c < n → (c == n) ≡ false
differ c n h = ground arith

left_over : (c n : ℕ) → c < n → (n - c == 0) ≡ false
left_over c n h = ground arith

cons-Covers :
    (w : Bool) (a p n c : ℕ) (q : Request) (qs : List Request)
    → q ≡ record { to_memory = w; address = a; place = p; n_words = c }
    → c < n
    → Covers w ((a + 2 * c) % 2 ^ 32) (p + c) (n - c) c qs
    → Covers w a p n c (q ∷ qs)
unfolding Covers
cons-Covers w a p n c q [] e h k = elim k [ ]
cons-Covers w a p n c q (r ∷ qs) e h k = (e, h, k)

module _ (chunksize mode : ℕ) where
  -- A chunk that is not the last, and the last.
  handler_more :
      (stats : Stats) (w : Bool) (a p n c k : ℕ)
      → c < n
      → n < 2 ^ 63
      → (later : Stats) × (rdma_handler false c (busy_with chunksize mode stats w a p n c k) ≡ (
        true,
        busy_with chunksize mode later w ((a + 2 * c) % 2 ^ 32) (p + c) (n - c) c (k + c),
      ))
  unfolding rdma_handler
  handler_more stats w a p n c k h small =
      let r = busy_with chunksize mode stats w a p n c k in
      let later = inc (if w then 3 else 2) 1 stats in
      let after : Status → ℕ → Rdma = λ st rest. record r {
        status = st;
        addr = (a + 2 * c) % 2 ^ 32;
        n_word_rest = rest;
        n_word_done = k + c;
        block_at = p + c;
        stats = later;
      } in
      (
        later,
        ap (λ (t : ℕ). handled t c (transferred false t c r)) (words_more c n h)
            ∙ ap
                (λ (t : Bool). handled c c (
                  after (if t then Status.busy_last else Status.busy)
                    ((n + (2 ^ 64 - c)) % 2 ^ 64)))
                (differ c n h)
            ∙ ap (λ (t : ℕ). handled c c (after Status.busy t)) (rest_more c n h small)
            ∙ if_false _ _ (ap not (==_refl c))
            ∙ if_false _ _ (left_over c n h),
      )

  handler_last :
      (stats : Stats) (w : Bool) (a p n c k : ℕ)
      → n ≤ c
      → n < 2 ^ 63
      → (r' : Rdma) × (rdma_handler false n (busy_with chunksize mode stats w a p n c k)
          ≡ (false, r'))
        × (r'.status ≡ Status.done)
        × (r'.n_word_done ≡ k + n)
        × (r'.n_word_rest ≡ 0)
  unfolding rdma_handler
  handler_last stats w a p n c k h small =
      let r = busy_with chunksize mode stats w a p n c k in
      let r3 = record (transferred false n n r) { n_word_rest = 0 } in
      (
        record r3 { status = Status.done },
        ap (λ (t : ℕ). handled t n (transferred false t n r)) (words_last c n h)
            ∙ ap (λ (t : ℕ). handled n n (record (transferred false n n r) { n_word_rest = t }))
                (rest_last n small)
            ∙ if_false _ _ (ap not (==_refl n)),
        refl,
        refl,
        refl,
      )

  -- A transfer from any point on.
  record Ends (w : Bool) (a p n c k : ℕ) (res : Option (List Request × Rdma)) : Type 0 where
    requests : List Request
    last : Rdma
    returns : res ≡ some (requests, last)
    covers : Covers w a p n c requests
    is_done : last.status ≡ Status.done
    all_done : last.n_word_done ≡ k + n
    no_rest : last.n_word_rest ≡ 0

  run_rdma-Ends :
      (answer : Request → ℕ)
      → ((q : Request) → answer q ≡ q.n_words)
      → (fuel : ℕ) (stats : Stats) (w : Bool) (a p n c k : ℕ) → 0 < c
      → n < fuel
      → n < 2 ^ 63
      → Ends w a p n c k (run_rdma answer fuel (busy_with chunksize mode stats w a p n c k))
  unfolding run_rdma Covers
  run_rdma-Ends answer all zero stats w a p n c k hc hf small = absurd (omega arith)
  run_rdma-Ends answer all (suc fuel) stats w a p n c k hc hf small = elim (Bool-cases (ltb c n)) [
    | inl t ↦
        let h : c < n = ltb→lt c n t in
        let (later, e) = handler_more stats w a p n c k h small in
        let ih =
          run_rdma-Ends answer all fuel later w ((a + 2 * c) % 2 ^ 32) (p + c) (n - c) c (k + c) hc
            (shorter n c fuel hc h hf) (omega arith) in
        record {
          requests = request r ∷ ih.requests;
          last = ih.last;
          returns =
              ap (λ (x : ℕ). on_handled (rdma_handler false x r))
                (all (request r) ∙ words_more c n h)
              ∙ ap on_handled e
              ∙ bind_some _ _ ih.returns;
          covers =
              cons-Covers w a p n c (request r) ih.requests
                (ap (λ (x : ℕ). record { to_memory = w; address = a; place = p; n_words = x })
                  (words_more c n h))
                h ih.covers;
          is_done = ih.is_done;
          all_done = ih.all_done ∙ total k c n h;
          no_rest = ih.no_rest;
        }
    | inr t ↦
        let h : n ≤ c = nlt→le c n t in
        let (last, e, d, f, z) = handler_last stats w a p n c k h small in
        record {
          requests = request r ∷ [];
          last = last;
          returns =
              ap (λ (x : ℕ). on_handled (rdma_handler false x r))
                (all (request r) ∙ words_last c n h)
              ∙ ap on_handled e;
          covers = (
            ap (λ (x : ℕ). record { to_memory = w; address = a; place = p; n_words = x })
                (words_last c n h),
            h,
          );
          is_done = d;
          all_done = f;
          no_rest = z;
        }
  ]
    where
      r : Rdma
      r = busy_with chunksize mode stats w a p n c k

      on_handled : Bool × Rdma → Option (List Request × Rdma)
      on_handled h =
          let rest = run_rdma answer fuel h.1 in
          if h.0
          then (rest >>= λ (qs, last). some (request r ∷ qs, last))
          else some (request r ∷ [], h.1)

      shorter : (n c fuel : ℕ) → 0 < c → c < n → n < suc fuel → n - c < fuel
      shorter n c fuel a b d = omega arith

      total : (k c n : ℕ) → c < n → k + c + (n - c) ≡ k + n
      total k c n h = omega arith

-- A transfer that is set up on an idle channel, with chunks of some words, ends within as many calls
-- of the handler as it has words, and one, when the CPU does all words of each request: the requests
-- cover the block once and in order, in full chunks and a rest, all words are counted, and the
-- channel is idle again.
pub transfer-ends :
    (answer : Request → ℕ) (prudent addr size mode : ℕ) (w : Bool) (r r' : Rdma)
    → ((q : Request) → answer q ≡ q.n_words)
    → setup_rdma prudent w addr size mode r ≡ some r'
    → 0 < r'.n_word_max
    → size < 2 ^ 63
    → (qs : List Request) × (last : Rdma) × (run_rdma answer (size + 1) r' ≡ some (qs, last))
      × Covers w addr 0 size r'.n_word_max qs
      × (last.status ≡ Status.done)
      × (last.n_word_done ≡ size)
      × (last.n_word_rest ≡ 0)
unfolding setup_rdma
transfer-ends answer prudent addr size mode w r r' all h c small = by_state (is_active r.status) h
  where
    chunk : ℕ
    chunk = if r.chunksize == 0 then prudent else r.chunksize

    start : Rdma
    start = busy_with chunk mode r.stats w addr 0 size chunk 0

    some_inj : {x y : Rdma} → some x ≡ some y → x ≡ y
    some_inj p = cc

    from :
        (t : Rdma)
        → start ≡ t
        → 0 < t.n_word_max
        → (qs : List Request) × (last : Rdma) × (run_rdma answer (size + 1) t ≡ some (qs, last))
          × Covers w addr 0 size t.n_word_max qs
          × (last.status ≡ Status.done)
          × (last.n_word_done ≡ size)
          × (last.n_word_rest ≡ 0)
    from t e c =
        let hc : 0 < chunk = subst (λ (x : Rdma). 0 < x.n_word_max) (sym e) c in
        let g =
          run_rdma-Ends chunk mode answer all (size + 1) r.stats w addr 0 size chunk 0 hc
            (omega arith) small in
        (
          g.requests,
          g.last,
          ap (run_rdma answer (size + 1)) (sym e) ∙ g.returns,
          subst (λ (x : Rdma). Covers w addr 0 size x.n_word_max g.requests) e g.covers,
          g.is_done,
          g.all_done ∙ none_before size,
          g.no_rest,
        )
      where
        none_before : (n : ℕ) → 0 + n ≡ n
        none_before n = omega arith

    by_state :
        (b : Bool)
        → (if b then none else some start) ≡ some r'
        → (qs : List Request) × (last : Rdma) × (run_rdma answer (size + 1) r' ≡ some (qs, last))
          × Covers w addr 0 size r'.n_word_max qs
          × (last.status ≡ Status.done)
          × (last.n_word_done ≡ size)
          × (last.n_word_rest ≡ 0)
    by_state true e = absurd (cc e)
    by_state false e = from r' (some_inj e) c
