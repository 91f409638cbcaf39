-- ===== src/Prelude/Maps.antt =====
-- Go's maps from strings: an association list. A missing key reads as `none`.
use mathlib.Core.Path.{◌≡◌, refl}
use mathlib.Core.Bool.{false, Bool}
use mathlib.Core.List.{List, [], ◌∷◌}
use mathlib.Core.Option.{Option, none, some}
use native.Mathlib.Omega.{arith}
use m3_repoworker.Prelude.Tests.{if◌then◌else◌}
use m3_repoworker.Prelude.ByteText.{Bytes, bytes_eq, bytes_eq_iff}

abbrev pub Dict {ℓ} : Type ℓ → Type ℓ
Dict V = List (Bytes × V)

module _ {ℓ} {V : Type ℓ} where
  unfoldable pub lookup : Bytes → Dict V → Option V
  lookup k [] = none
  lookup k ((j, v) ∷ m) = if bytes_eq j k then some v else lookup k m

  unfoldable pub insert : Bytes → V → Dict V → Dict V
  insert k v [] = (k, v) ∷ []
  insert k v ((j, w) ∷ m) = if bytes_eq j k then (k, v) ∷ m else (j, w) ∷ insert k v m

  unfoldable pub delete : Bytes → Dict V → Dict V
  delete k [] = []
  delete k ((j, w) ∷ m) = let rest = delete k m in if bytes_eq j k then rest else (j, w) ∷ rest

  -- `for key, value := range m { if drop(value) { delete(m, key) } }`.
  unfoldable pub delete_if : (V → Bool) → Dict V → Dict V
  delete_if drop [] = []
  delete_if drop ((j, w) ∷ m) =
      let rest = delete_if drop m in if drop w then rest else (j, w) ∷ rest

  pub lookup-insert :
      (k j : Bytes) (v : V) (m : Dict V)
      → lookup j (insert k v m) ≡ (if bytes_eq k j then some v else lookup j m)
  unfolding lookup insert
  lookup-insert k j v [] = refl
  lookup-insert k j v ((i, w) ∷ m) =
      ground (arith, bytes_eq_iff k j, bytes_eq_iff i k, bytes_eq_iff i j, lookup-insert k j v m)

  pub lookup-delete :
      (k j : Bytes) (m : Dict V)
      → lookup j (delete k m) ≡ (if bytes_eq k j then none else lookup j m)
  unfolding lookup delete
  lookup-delete k j [] = ground arith
  lookup-delete k j ((i, w) ∷ m) =
      ground (arith, bytes_eq_iff k j, bytes_eq_iff i k, bytes_eq_iff i j, lookup-delete k j m)

  pub lookup-delete_if :
      (drop : V → Bool) (j : Bytes) (m : Dict V)
      → lookup j m ≡ none
      → lookup j (delete_if drop m) ≡ none
  unfolding lookup delete_if
  lookup-delete_if drop j [] h = refl
  lookup-delete_if drop j ((i, w) ∷ m) h = ground (arith, lookup-delete_if drop j m)

  -- What a deletion by value keeps has passed the test.
  pub lookup-delete_if_kept :
      (drop : V → Bool) (j : Bytes) (m : Dict V) (v : V)
      → lookup j (delete_if drop m) ≡ some v
      → drop v ≡ false
  unfolding lookup delete_if
  lookup-delete_if_kept drop j [] v h = cc
  lookup-delete_if_kept drop j ((i, w) ∷ m) v h = ground (arith, lookup-delete_if_kept drop j m v)
