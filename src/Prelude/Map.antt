-- ===== src/Prelude/Map.antt =====
-- `std::map`, `tsl::robin_map` and `std::unordered_map` with `std::string` keys, as association
-- lists with distinct keys. No property here depends on the order of iteration.
use mathlib.Core.Path.{◌≡◌, refl}
use mathlib.Core.Logic.{◌≢◌}
use mathlib.Core.Bool.{Bool, true, false}
use mathlib.Core.List.{List, [], ◌∷◌}
use mathlib.Core.Option.{Option, none, some}
use native.Mathlib.Omega.{arith}
use lingdong.Prelude.Tests.{if◌then◌else◌}
use lingdong.Prelude.Strings.{Bytes, bytes_eq, bytes_eq_iff}

module _ {ℓ} {V : Type ℓ} where
  unfoldable pub lookup : Bytes → List (Bytes × V) → Option V
  lookup k [] = none
  lookup k ((j, v) ∷ m) = if bytes_eq j k then some v else lookup k m

  -- `m[k] = v`.
  unfoldable pub insert : Bytes → V → List (Bytes × V) → List (Bytes × V)
  insert k v [] = (k, v) ∷ []
  insert k v ((j, w) ∷ m) = if bytes_eq j k then (j, v) ∷ m else (j, w) ∷ insert k v m

  -- `m.contains(k)`.
  unfoldable pub contains : Bytes → List (Bytes × V) → Bool
  contains k [] = false
  contains k ((j, v) ∷ m) = if bytes_eq j k then true else contains k m

  -- `m.erase(k)`.
  unfoldable pub erase : Bytes → List (Bytes × V) → List (Bytes × V)
  erase k [] = []
  erase k ((j, v) ∷ m) = if bytes_eq j k then erase k m else (j, v) ∷ erase k m

  pub lookup-insert :
      (k j : Bytes) (v : V) (m : List (Bytes × V))
      → lookup j (insert k v m) ≡ (if bytes_eq k j then some v else lookup j m)
  unfolding lookup insert
  lookup-insert k j v [] = refl
  lookup-insert k j v ((i, w) ∷ m) =
      ground (arith, bytes_eq_iff k j, bytes_eq_iff i k, bytes_eq_iff i j, lookup-insert k j v m)

  pub lookup-insert_ne :
      (k j : Bytes) (v : V) (m : List (Bytes × V)) → k ≢ j → lookup j (insert k v m) ≡ lookup j m
  lookup-insert_ne k j v m ne = ground (arith, bytes_eq_iff k j, lookup-insert k j v m)

  pub lookup-erase :
      (k j : Bytes) (m : List (Bytes × V))
      → lookup j (erase k m) ≡ (if bytes_eq k j then none else lookup j m)
  unfolding lookup erase
  lookup-erase k j [] = ground arith
  lookup-erase k j ((i, w) ∷ m) =
      ground (arith, bytes_eq_iff k j, bytes_eq_iff i k, bytes_eq_iff i j, lookup-erase k j m)

  pub contains-insert :
      (k j : Bytes) (v : V) (m : List (Bytes × V))
      → contains j m ≡ true
      → contains j (insert k v m) ≡ true
  unfolding contains insert
  contains-insert k j v [] h = cc h
  contains-insert k j v ((i, w) ∷ m) h =
      ground (arith, bytes_eq_iff i k, bytes_eq_iff i j, contains-insert k j v m)

  pub contains-inserted :
      (k : Bytes) (v : V) (m : List (Bytes × V)) → contains k (insert k v m) ≡ true
  unfolding contains insert
  contains-inserted k v [] = ground (arith, bytes_eq_iff k k)
  contains-inserted k v ((i, w) ∷ m) =
      ground (arith, bytes_eq_iff i k, bytes_eq_iff k k, contains-inserted k v m)
