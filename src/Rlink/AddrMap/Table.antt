-- ===== src/Rlink/AddrMap/Table.antt =====
-- Association lists with one entry for a key, as `std::map` is used.
use w.Base.{◌≡◌, ◌≢◌, refl, sym, ap, ◌∙◌, Option, none, some, List, [], ◌∷◌}

abbrev by_test {ℓ κ} : {P : Type ℓ} {A : Type κ} → Dec P → A → A → A
by_test (yes _) x y = x
by_test (no _) x y = y

test_yes {ℓ κ} : {P : Type ℓ} {A : Type κ} (d : Dec P) (x y : A) → P → by_test d x y ≡ x
test_yes (yes _) x y p = refl
test_yes (no n) x y p = elim (n p) [ ]

test_no {ℓ κ} : {P : Type ℓ} {A : Type κ} (d : Dec P) (x y : A) → ¬ P → by_test d x y ≡ y
test_no (yes p) x y n = elim (n p) [ ]
test_no (no _) x y n = refl

module _ {K V : Type 0} (same : Discrete K) where
  unfoldable pub find : K → List (K × V) → Option V
  find k [] = none
  find k ((j, v) ∷ xs) = by_test (same k j) (some v) (find k xs)

  unfoldable pub erase : K → List (K × V) → List (K × V)
  erase k [] = []
  erase k ((j, v) ∷ xs) = let rest = erase k xs in by_test (same k j) rest ((j, v) ∷ rest)

  pub find-put : (k : K) (v : V) (xs : List (K × V)) → find k ((k, v) ∷ xs) ≡ some v
  unfolding find
  find-put k v xs = test_yes (same k k) (some v) (find k xs) refl

  pub find-put_other :
      (k j : K) (v : V) (xs : List (K × V)) → k ≢ j → find k ((j, v) ∷ xs) ≡ find k xs
  unfolding find
  find-put_other k j v xs ne = test_no (same k j) (some v) (find k xs) ne

  pub find-erase : (k : K) (xs : List (K × V)) → find k (erase k xs) ≡ none
  unfolding find erase
  find-erase k [] = refl
  find-erase k ((j, v) ∷ xs) = elim (same k j) [
    | yes p ↦
        ap (find k) (test_yes (same k j) (erase k xs) ((j, v) ∷ erase k xs) p) ∙ find-erase k xs
    | no n ↦
        ap (find k) (test_no (same k j) (erase k xs) ((j, v) ∷ erase k xs) n)
        ∙ find-put_other k j v (erase k xs) n
        ∙ find-erase k xs
  ]

  pub find-erase_other : (k j : K) (xs : List (K × V)) → k ≢ j → find k (erase j xs) ≡ find k xs
  unfolding find erase
  find-erase_other k j [] ne = refl
  find-erase_other k j ((i, v) ∷ xs) ne = elim (same j i) [
    | yes p ↦
        ap (find k) (test_yes (same j i) (erase j xs) ((i, v) ∷ erase j xs) p)
        ∙ find-erase_other k j xs ne
        ∙ sym (find-put_other k i v xs (λ e. ne (e ∙ sym p)))
    | no n ↦
        ap (find k) (test_no (same j i) (erase j xs) ((i, v) ∷ erase j xs) n)
        ∙ ap (by_test (same k i) (some v)) (find-erase_other k j xs ne)
  ]
