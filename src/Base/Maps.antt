-- ===== src/Base/Maps.antt =====
-- Go maps keyed by strings, as association lists. The program reads them by key; where it walks
-- a map, the order of the walk does not matter.
use mathlib.Core.Path.{◌≡◌, refl}
use mathlib.Core.List.{List, [], ◌∷◌}
use mathlib.Core.Option.{Option, none, some}
use native.Mathlib.Omega.{arith}
use ably_server.Base.Tests.{if◌then◌else◌}
use ably_server.Base.ByteStrings.{Bytes, bytes_eq, bytes_eq_iff, bytes_eq_refl}

abbrev pub Assoc {ℓ} : Type ℓ → Type ℓ
Assoc V = List (Bytes × V)

module _ {ℓ} {V : Type ℓ} where
  -- v, ok := m[k]
  unfoldable pub lookup : Bytes → Assoc V → Option V
  lookup k [] = none
  lookup k ((j, v) ∷ m) = if bytes_eq j k then some v else lookup k m

  -- m[k] = v
  unfoldable pub insert : Bytes → V → Assoc V → Assoc V
  insert k v [] = (k, v) ∷ []
  insert k v ((j, w) ∷ m) = if bytes_eq j k then (k, v) ∷ m else (j, w) ∷ insert k v m

  -- delete(m, k)
  unfoldable pub delete : Bytes → Assoc V → Assoc V
  delete k [] = []
  delete k ((j, w) ∷ m) = let rest = delete k m in if bytes_eq j k then rest else (j, w) ∷ rest

  pub lookup-insert :
      (k j : Bytes) (v : V) (m : Assoc V)
      → lookup j (insert k v m) ≡ (if bytes_eq k j then some v else lookup j m)
  unfolding lookup insert
  lookup-insert k j v [] = refl
  lookup-insert k j v ((i, w) ∷ m) =
      ground (arith, bytes_eq_iff k j, bytes_eq_iff i k, bytes_eq_iff i j, lookup-insert k j v m)

  pub lookup-insert_self : (k : Bytes) (v : V) (m : Assoc V) → lookup k (insert k v m) ≡ some v
  lookup-insert_self k v m = ground (arith, lookup-insert k k v m, bytes_eq_refl k)

  pub lookup-delete :
      (k j : Bytes) (m : Assoc V)
      → lookup j (delete k m) ≡ (if bytes_eq k j then none else lookup j m)
  unfolding lookup delete
  lookup-delete k j [] = ground arith
  lookup-delete k j ((i, w) ∷ m) =
      ground (arith, bytes_eq_iff k j, bytes_eq_iff i k, bytes_eq_iff i j, lookup-delete k j m)
