-- ===== src/Rlink/AddrMap.antt =====
-- tools/src/librlink/RlinkAddrMap.cpp: register names and addresses, kept in two maps. A `std::map`
-- is an association list here, without order: the order shows in `Print` only.
pub mod Table
pub mod Laws
pub mod Tests
use w.Base.{ℕ, Bool, true, false, Option, none, some, List, [], ◌∷◌, length, ltb, ◌==◌}
use w.Base.{if◌then◌else◌, max, ◌>>=◌}
use native.Mathlib.Decide.{ℕ_discrete}
use mathlib.Core.List.{List-discrete}
use w.Rlink.AddrMap.Table.{find, erase}

-- A `std::string`, as its characters.
abbrev pub Name : Type 0
Name = List ℕ

abbrev pub same_name : Discrete Name
same_name = List-discrete ℕ_discrete

pub record AddrMap : Type 0 where
  pub name_map : List (Name × ℕ)
  pub addr_map : List (ℕ × Name)
  pub max_length : ℕ

unfoldable pub create : AddrMap
create = record { name_map = []; addr_map = []; max_length = 0 }

unfoldable pub clear : AddrMap → AddrMap
clear m = record m { name_map = []; addr_map = [] }

unfoldable pub find_addr : Name → AddrMap → Option ℕ
find_addr name m = find same_name name m.name_map

unfoldable pub find_name : ℕ → AddrMap → Option Name
find_name addr m = find ℕ_discrete addr m.addr_map

abbrev is_some {ℓ} : {A : Type ℓ} → Option A → Bool
is_some none = false
is_some (some a) = true

unfoldable pub insert : Name → ℕ → AddrMap → Bool × AddrMap
insert name addr m =
    if is_some (find_addr name m)
    then (false, m)
    else (if is_some (find_name addr m) then (false, m) else (
      true,
      record {
        name_map = (name, addr) ∷ m.name_map;
        addr_map = (addr, name) ∷ m.addr_map;
        max_length = max m.max_length (length name);
      },
    ))

-- The maps without an entry; the length is calculated anew when it is asked for.
abbrev pub without : Name → ℕ → AddrMap → AddrMap
without name addr m = record {
  name_map = erase same_name name m.name_map;
  addr_map = erase ℕ_discrete addr m.addr_map;
  max_length = 0;
}

-- `if (it == end()) return false;`.
abbrev when_found :
    {A : Type 0} → Option A → AddrMap → (A → Option (Bool × AddrMap)) → Option (Bool × AddrMap)
when_found none m erased = some (false, m)
when_found (some a) m erased = erased a

-- Both `Erase` read `it->second` after the entry of `it` has been erased, which is undefined. What
-- this read gives is a parameter, a function of the value that the entry had. `none` is the
-- exception for a value that is not in the other map.
unfoldable pub erase_name : (ℕ → ℕ) → Name → AddrMap → Option (Bool × AddrMap)
erase_name freed name m = when_found (find_addr name m) m (λ addr.
    if is_some (find_name (freed addr) m) then some (true, without name (freed addr) m) else none)

unfoldable pub erase_addr : (Name → Name) → ℕ → AddrMap → Option (Bool × AddrMap)
erase_addr freed addr m = when_found (find_name addr m) m (λ name.
    if is_some (find_addr (freed name) m) then some (true, without (freed name) addr m) else none)

unfoldable pub longest : List (ℕ × Name) → ℕ
longest [] = 0
longest ((_, name) ∷ xs) = max (length name) (longest xs)

-- The length, and the map with the length kept for the next call.
unfoldable pub max_name_length : AddrMap → ℕ × AddrMap
max_name_length m =
    let n = if m.max_length == 0 then longest m.addr_map else m.max_length in
    (n, record m { max_length = n })
