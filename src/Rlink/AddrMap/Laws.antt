-- ===== src/Rlink/AddrMap/Laws.antt =====
-- The two maps of an address map are each other's inverse, whatever is inserted and erased.
use w.Base.{ℕ, ◌≡◌, ◌≢◌, refl, sym, subst, ◌∙◌, true, false, none, some}
use w.Base.{◌∷◌, ◌↔◌, Option-cases, ◌⊎◌, inl, inr}
use native.Mathlib.Decide.{ℕ_discrete}
use w.Rlink.AddrMap.{AddrMap, Name, same_name, insert, erase_name, erase_addr, find_addr, find_name}
use w.Rlink.AddrMap.{without}
use w.Rlink.AddrMap.Table.{find-put, find-put_other, find-erase, find-erase_other}

-- A name leads to an address when the address leads to the name.
abbrev pub IsBimap : AddrMap → Type 0
IsBimap m =
    (name : Name) (addr : ℕ) → (find_addr name m ≡ some addr) ↔ (find_name addr m ≡ some name)

pub put-IsBimap :
    (name : Name) (addr k : ℕ) (m : AddrMap)
    → find_addr name m ≡ none
    → find_name addr m ≡ none
    → IsBimap m
    → IsBimap (record {
      name_map = (name, addr) ∷ m.name_map;
      addr_map = (addr, name) ∷ m.addr_map;
      max_length = k;
    })
unfolding find_addr find_name
put-IsBimap name addr k m e1 e2 h x b = elim (same_name x name) [
  | yes p ↦ elim (ℕ_discrete b addr) [
    | yes q ↦ (
      λ u. cc (p, q, find-put ℕ_discrete addr name m.addr_map),
      λ u. cc (p, q, find-put same_name name addr m.name_map),
    )
    | no q ↦ (
      λ u. elim (q (cc (p, u, find-put same_name name addr m.name_map))) [ ],
      λ u.
          let g = (h x b).1 (sym (find-put_other ℕ_discrete b addr name m.addr_map q) ∙ u) in
          cc (p, g, e1),
    )
  ]
  | no p ↦ elim (ℕ_discrete b addr) [
    | yes q ↦ (
      λ u.
          let g = (h x b).0 (sym (find-put_other same_name x name addr m.name_map p) ∙ u) in
          cc (q, g, e2),
      λ u. elim (p (cc (q, u, find-put ℕ_discrete addr name m.addr_map))) [ ],
    )
    | no q ↦ (
      λ u.
          find-put_other ℕ_discrete b addr name m.addr_map q
          ∙ (h x b).0 (sym (find-put_other same_name x name addr m.name_map p) ∙ u),
      λ u.
          find-put_other same_name x name addr m.name_map p
          ∙ (h x b).1 (sym (find-put_other ℕ_discrete b addr name m.addr_map q) ∙ u),
    )
  ]
]

pub cut-IsBimap :
    (name : Name) (addr : ℕ) (m : AddrMap)
    → find_addr name m ≡ some addr
    → find_name addr m ≡ some name
    → IsBimap m
    → IsBimap (without name addr m)
unfolding find_addr find_name
cut-IsBimap name addr m e1 e2 h x b = elim (same_name x name) [
  | yes p ↦ elim (ℕ_discrete b addr) [
    | yes q ↦ (
      λ u. cc (p, u, find-erase same_name name m.name_map),
      λ u. cc (q, u, find-erase ℕ_discrete addr m.addr_map),
    )
    | no q ↦ (
      λ u. cc (p, u, find-erase same_name name m.name_map),
      λ u.
          let g = (h x b).1 (sym (find-erase_other ℕ_discrete b addr m.addr_map q) ∙ u) in
          elim (q (cc (p, g, e1))) [ ],
    )
  ]
  | no p ↦ elim (ℕ_discrete b addr) [
    | yes q ↦ (
      λ u.
          let g = (h x b).0 (sym (find-erase_other same_name x name m.name_map p) ∙ u) in
          elim (p (cc (q, g, e2))) [ ],
      λ u. cc (q, u, find-erase ℕ_discrete addr m.addr_map),
    )
    | no q ↦ (
      λ u.
          find-erase_other ℕ_discrete b addr m.addr_map q
          ∙ (h x b).0 (sym (find-erase_other same_name x name m.name_map p) ∙ u),
      λ u.
          find-erase_other same_name x name m.name_map p
          ∙ (h x b).1 (sym (find-erase_other ℕ_discrete b addr m.addr_map q) ∙ u),
    )
  ]
]

found :
    (name : Name) (addr k : ℕ) (m : AddrMap)
    → find_addr name (record {
      name_map = (name, addr) ∷ m.name_map;
      addr_map = (addr, name) ∷ m.addr_map;
      max_length = k;
    })
      ≡ some addr
unfolding find_addr
found name addr k m = find-put same_name name addr m.name_map

-- The maps without an entry: the name and the address are gone, all others are where they were.
cut_name :
    (name : Name) (addr : ℕ) (m : AddrMap)
    → (find_addr name (without name addr m) ≡ none)
      × ((other : Name) → other ≢ name → find_addr other (without name addr m) ≡ find_addr other m)
unfolding find_addr
cut_name name addr m = (
  find-erase same_name name m.name_map,
  λ other ne. find-erase_other same_name other name m.name_map ne,
)

cut_addr :
    (name : Name) (addr : ℕ) (m : AddrMap)
    → (find_name addr (without name addr m) ≡ none)
      × ((other : ℕ) → other ≢ addr → find_name other (without name addr m) ≡ find_name other m)
unfolding find_name
cut_addr name addr m = (
  find-erase ℕ_discrete addr m.addr_map,
  λ other ne. find-erase_other ℕ_discrete other addr m.addr_map ne,
)

-- `Insert` keeps the two maps inverse. It takes the pair exactly when neither its name nor its
-- address is in use: then the name leads to the address; otherwise the maps stay as they are.
pub insert-IsBimap :
    (name : Name) (addr : ℕ) (m : AddrMap)
    → IsBimap m
    → IsBimap (insert name addr m).1
      × (((insert name addr m).0 ≡ true)
            × (find_addr name m ≡ none)
            × (find_name addr m ≡ none)
            × (find_addr name (insert name addr m).1 ≡ some addr)
          ⊎ ((insert name addr m).0 ≡ false)
            × ((insert name addr m).1 ≡ m)
            × ((find_addr name m ≢ none) ⊎ (find_name addr m ≢ none)))
unfolding insert
insert-IsBimap name addr m h = elim (Option-cases (find_addr name m)) [
  | inr (a, e) ↦ rw e (h, inr (refl, refl, inl (λ u. cc u)))
  | inl e ↦ elim (Option-cases (find_name addr m)) [
    | inr (n, f) ↦ rw (e, f) (h, inr (refl, refl, inr (λ u. cc u)))
    | inl f ↦
        rw (e, f) (put-IsBimap name addr _ m e f h, inl (refl, refl, refl, found name addr _ m))
  ]
]

-- Maps that are inverse again have lost both sides of the entry.
freed_name :
    (name : Name) (addr k : ℕ) (m : AddrMap)
    → find_name addr m ≡ some name
    → IsBimap (without name k m)
    → k ≡ addr
freed_name name addr k m f g = elim (ℕ_discrete addr k) [
  | yes p ↦ sym p
  | no p ↦
      let u = (g name addr).1 ((cut_addr name k m).1 addr p ∙ f) in
      elim (some≢none (sym u ∙ (cut_name name k m).0)) [ ]
]
  where
    some≢none : some addr ≢ none
    some≢none e = cc e

freed_addr :
    (name n : Name) (addr : ℕ) (m : AddrMap)
    → find_addr name m ≡ some addr
    → IsBimap (without n addr m)
    → n ≡ name
freed_addr name n addr m f g = elim (same_name name n) [
  | yes p ↦ sym p
  | no p ↦
      let u = (g name addr).0 ((cut_name n addr m).1 name p ∙ f) in
      elim (some≢none (sym u ∙ (cut_addr n addr m).0)) [ ]
]
  where
    some≢none : some name ≢ none
    some≢none e = cc e

-- `Erase` of a name in inverse maps, whatever the read of the erased entry gives: for a name that is
-- not in use it returns false, and the maps stay as they are. For a name in use either it throws,
-- and then the read has not given the address of the name; or it returns true, the name is gone, all
-- other names lead where they led, and the maps are inverse exactly when the read has given the
-- address that the entry had.
pub erase_name-IsBimap :
    (freed : ℕ → ℕ) (name : Name) (m : AddrMap)
    → IsBimap m
    → (find_addr name m ≡ none) × (erase_name freed name m ≡ some (false, m))
      ⊎ (addr : ℕ) × (find_addr name m ≡ some addr)
        × ((erase_name freed name m ≡ none) × (freed addr ≢ addr)
            ⊎ (m' : AddrMap) × (erase_name freed name m ≡ some (true, m'))
              × (find_addr name m' ≡ none)
              × ((other : Name) → other ≢ name → find_addr other m' ≡ find_addr other m)
              × (IsBimap m' ↔ (freed addr ≡ addr)))
unfolding erase_name
erase_name-IsBimap freed name m h = elim (Option-cases (find_addr name m)) [
  | inl e ↦ inl (e, rw e refl)
  | inr (addr, e) ↦
      let f = (h name addr).0 e in
      inr (
        addr,
        e,
        elim (Option-cases (find_name (freed addr) m)) [
          | inl g ↦ inl (rw (e, g) refl, λ p. cc (p, f, g))
          | inr (n, g) ↦ inr (
            without name (freed addr) m,
            rw (e, g) refl,
            (cut_name name (freed addr) m).0,
            (cut_name name (freed addr) m).1,
            (
              freed_name name addr (freed addr) m f,
              λ p.
                  subst (λ (t : ℕ). IsBimap (without name t m)) (sym p)
                    (cut-IsBimap name addr m e f h),
            ),
          )
        ],
      )
]

-- `Erase` of an address in inverse maps, whatever the read of the erased entry gives: for an address
-- that is not in use it returns false, and the maps stay as they are. For an address in use either it
-- throws, and then the read has not given the name of the address; or it returns true, the address
-- is gone, all other addresses lead where they led, and the maps are inverse exactly when the read
-- has given the name that the entry had.
pub erase_addr-IsBimap :
    (freed : Name → Name) (addr : ℕ) (m : AddrMap)
    → IsBimap m
    → (find_name addr m ≡ none) × (erase_addr freed addr m ≡ some (false, m))
      ⊎ (name : Name) × (find_name addr m ≡ some name)
        × ((erase_addr freed addr m ≡ none) × (freed name ≢ name)
            ⊎ (m' : AddrMap) × (erase_addr freed addr m ≡ some (true, m'))
              × (find_name addr m' ≡ none)
              × ((other : ℕ) → other ≢ addr → find_name other m' ≡ find_name other m)
              × (IsBimap m' ↔ (freed name ≡ name)))
unfolding erase_addr
erase_addr-IsBimap freed addr m h = elim (Option-cases (find_name addr m)) [
  | inl e ↦ inl (e, rw e refl)
  | inr (name, e) ↦
      let f = (h name addr).1 e in
      inr (
        name,
        e,
        elim (Option-cases (find_addr (freed name) m)) [
          | inl g ↦ inl (rw (e, g) refl, λ p. cc (p, f, g))
          | inr (a, g) ↦ inr (
            without (freed name) addr m,
            rw (e, g) refl,
            (cut_addr (freed name) addr m).0,
            (cut_addr (freed name) addr m).1,
            (
              freed_addr name (freed name) addr m f,
              λ p.
                  subst (λ (t : Name). IsBimap (without t addr m)) (sym p)
                    (cut-IsBimap name addr m f e h),
            ),
          )
        ],
      )
]
