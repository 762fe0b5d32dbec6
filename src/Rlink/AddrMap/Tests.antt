-- ===== src/Rlink/AddrMap/Tests.antt =====
-- An address map with two registers.
use w.Base.{ℕ, ◌≡◌, ◌≢◌, ◌⊎◌, ◌↔◌, true, false, some, none, [], ◌∷◌}
use w.Rlink.AddrMap.{AddrMap, Name, insert, erase_name, erase_addr, find_addr, find_name, create}
use w.Rlink.AddrMap.Table.{find}
use w.Rlink.AddrMap.Laws.{IsBimap, insert-IsBimap, erase_name-IsBimap, erase_addr-IsBimap}

create-IsBimap : IsBimap create
unfolding create find_addr find_name find
create-IsBimap name addr = (λ u. cc u, λ u. cc u)

abbrev one : AddrMap
one = (insert (104 ∷ 105 ∷ []) 7 create).1

one-IsBimap : IsBimap one
one-IsBimap = (insert-IsBimap (104 ∷ 105 ∷ []) 7 create create-IsBimap).0

insert-IsBimap_example :
    IsBimap (insert (104 ∷ []) 8 one).1
    × (((insert (104 ∷ []) 8 one).0 ≡ true)
          × (find_addr (104 ∷ []) one ≡ none)
          × (find_name 8 one ≡ none)
          × (find_addr (104 ∷ []) (insert (104 ∷ []) 8 one).1 ≡ some 8)
        ⊎ ((insert (104 ∷ []) 8 one).0 ≡ false)
          × ((insert (104 ∷ []) 8 one).1 ≡ one)
          × ((find_addr (104 ∷ []) one ≢ none) ⊎ (find_name 8 one ≢ none)))
insert-IsBimap_example = insert-IsBimap (104 ∷ []) 8 one one-IsBimap

-- The read of an erased entry gives what the entry had.
abbrev freed_kept {ℓ} : {A : Type ℓ} → A → A
freed_kept a = a

erase_name-IsBimap_example :
    (find_addr (104 ∷ 105 ∷ []) one ≡ none)
      × (erase_name freed_kept (104 ∷ 105 ∷ []) one ≡ some (false, one))
    ⊎ (addr : ℕ) × (find_addr (104 ∷ 105 ∷ []) one ≡ some addr)
      × ((erase_name freed_kept (104 ∷ 105 ∷ []) one ≡ none) × (freed_kept addr ≢ addr)
          ⊎ (m' : AddrMap) × (erase_name freed_kept (104 ∷ 105 ∷ []) one ≡ some (true, m'))
            × (find_addr (104 ∷ 105 ∷ []) m' ≡ none)
            × ((other : Name) → other ≢ 104 ∷ 105 ∷ [] → find_addr other m' ≡ find_addr other one)
            × (IsBimap m' ↔ (freed_kept addr ≡ addr)))
erase_name-IsBimap_example = erase_name-IsBimap freed_kept (104 ∷ 105 ∷ []) one one-IsBimap

erase_addr-IsBimap_example :
    (find_name 7 one ≡ none) × (erase_addr freed_kept 7 one ≡ some (false, one))
    ⊎ (name : Name) × (find_name 7 one ≡ some name)
      × ((erase_addr freed_kept 7 one ≡ none) × (freed_kept name ≢ name)
          ⊎ (m' : AddrMap) × (erase_addr freed_kept 7 one ≡ some (true, m'))
            × (find_name 7 m' ≡ none)
            × ((other : ℕ) → other ≢ 7 → find_name other m' ≡ find_name other one)
            × (IsBimap m' ↔ (freed_kept name ≡ name)))
erase_addr-IsBimap_example = erase_addr-IsBimap freed_kept 7 one one-IsBimap
