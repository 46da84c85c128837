-- ===== src/Prelude/Map.antt =====
-- `std::map<std::string, V>`: entries in the order of their keys, so that a walk over the list is a
-- walk over the map. Clients reason by the laws below.
use mathlib.Core.Path.{◌≡◌, refl}
use mathlib.Core.Option.{Option, none, some}
use mathlib.Core.List.{List, [], ◌∷◌}
use native.Mathlib.Omega.{arith}
use oio_sds_cpp.Prelude.Bools.{if◌then◌else◌}
use oio_sds_cpp.Prelude.ByteStrings.{Bytes, bytes_eq, bytes_lt, bytes_eq_iff}

abbrev pub Map {ℓ} : Type ℓ → Type ℓ
Map V = List (Bytes × V)

module _ {ℓ} {V : Type ℓ} where
  -- m.find(k)
  unfoldable pub find : Map V → Bytes → Option V
  find [] k = none
  find ((j, v) ∷ m) k = if bytes_eq j k then some v else find m k

  -- m[k] = v
  unfoldable pub insert : Map V → Bytes → V → Map V
  insert [] k v = (k, v) ∷ []
  insert ((j, w) ∷ m) k v =
      let later = (j, w) ∷ insert m k v in
      if bytes_eq j k then (k, v) ∷ m else if bytes_lt k j then (k, v) ∷ (j, w) ∷ m else later

  -- m.erase(k)
  unfoldable pub erase : Map V → Bytes → Map V
  erase [] k = []
  erase ((j, w) ∷ m) k = let rest = erase m k in if bytes_eq j k then rest else (j, w) ∷ rest

  pub find-insert :
      (m : Map V) (k j : Bytes) (v : V)
      → find (insert m k v) j ≡ (if bytes_eq k j then some v else find m j)
  unfolding find insert
  find-insert [] k j v = refl
  find-insert ((i, w) ∷ m) k j v =
      ground (arith, find-insert m k j v, bytes_eq_iff k j, bytes_eq_iff i k, bytes_eq_iff i j)

  pub find-erase :
      (m : Map V) (k j : Bytes) → find (erase m k) j ≡ (if bytes_eq k j then none else find m j)
  unfolding find erase
  find-erase [] k j = ground arith
  find-erase ((i, w) ∷ m) k j =
      ground (arith, find-erase m k j, bytes_eq_iff k j, bytes_eq_iff i k, bytes_eq_iff i j)

pub ruleset map_laws = (find-insert, find-erase)
