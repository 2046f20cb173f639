-- ===== src/Prelude/Dict.antt =====
-- A Go map with string keys as an association list. A walk `for k, v := range m` has no fixed order
-- in Go; here it has the order of the list, which no lemma fixes.
use mathlib.Core.Path.{◌≡◌, refl}
use mathlib.Core.Logic.{inl, inr}
use mathlib.Core.Bool.{Bool, true, false}
use mathlib.Core.List.{List, [], ◌∷◌}
use mathlib.Core.Option.{Option, none, some}
use native.Mathlib.Omega.{arith}
use schain.Prelude.Tests.{if◌then◌else◌, Option-cases}
use schain.Prelude.Text.{Bytes, str_eq, str_eq_iff, member}

abbrev pub Dict {ℓ} : Type ℓ → Type ℓ
Dict V = List (Bytes × V)

module _ {ℓ} {V : Type ℓ} where
  -- `v, ok := m[k]`
  unfoldable pub lookup : Bytes → Dict V → Option V
  lookup k [] = none
  lookup k ((j, v) ∷ m) = if str_eq j k then some v else lookup k m

  -- `m[k] = v`
  unfoldable pub insert : Bytes → V → Dict V → Dict V
  insert k v [] = (k, v) ∷ []
  insert k v ((j, w) ∷ m) = if str_eq j k then (k, v) ∷ m else (j, w) ∷ insert k v m

  -- `delete(m, k)`
  unfoldable pub delete : Bytes → Dict V → Dict V
  delete k [] = []
  delete k ((j, w) ∷ m) = let rest = delete k m in if str_eq j k then rest else (j, w) ∷ rest

  unfoldable pub keys_of : Dict V → List Bytes
  keys_of [] = []
  keys_of ((j, w) ∷ m) = j ∷ keys_of m

  -- `_, ok := m[k]`
  unfoldable pub has_key : Bytes → Dict V → Bool
  unfolding lookup
  has_key k m = elim (lookup k m) [ none ↦ false | some v ↦ true ]

  pub lookup-nil : (k : Bytes) → lookup k [] ≡ none
  unfolding lookup
  lookup-nil k = refl

  pub lookup-cons :
      (k j : Bytes) (v : V) (m : Dict V)
      → lookup k ((j, v) ∷ m) ≡ (if str_eq j k then some v else lookup k m)
  unfolding lookup
  lookup-cons k j v m = refl

  pub has_key-none : (k : Bytes) (m : Dict V) → has_key k m ≡ false → lookup k m ≡ none
  unfolding has_key
  has_key-none k m h = elim (Option-cases (lookup k m)) [
    | inl e ↦ e
    | inr (x, e) ↦ absurd (ground (arith, e, h))
  ]

  pub lookup-insert :
      (k j : Bytes) (v : V) (m : Dict V)
      → lookup j (insert k v m) ≡ (if str_eq k j then some v else lookup j m)
  unfolding lookup insert
  lookup-insert k j v [] = refl
  lookup-insert k j v ((i, w) ∷ m) =
      ground (arith, str_eq_iff k j, str_eq_iff i k, str_eq_iff i j, lookup-insert k j v m)

  pub lookup-delete :
      (k j : Bytes) (m : Dict V) → lookup j (delete k m) ≡ (if str_eq k j then none else lookup j m)
  unfolding lookup delete
  lookup-delete k j [] = ground arith
  lookup-delete k j ((i, w) ∷ m) =
      ground (arith, str_eq_iff k j, str_eq_iff i k, str_eq_iff i j, lookup-delete k j m)

  pub member-keys_of : (k : Bytes) (m : Dict V) → member k (keys_of m) ≡ has_key k m
  unfolding member keys_of has_key lookup
  member-keys_of k [] = refl
  member-keys_of k ((i, w) ∷ m) = ground (arith, member-keys_of k m)

-- No key occurs twice, as in every Go map.
module _ {ℓ} {V : Type ℓ} where
  abbrev pub IsMap : Dict V → Type 0
  IsMap [] = Unit
  IsMap ((j, w) ∷ m) = (has_key j m ≡ false) × IsMap m

  has_key-insert_ne :
      (j k : Bytes) (v : V) (m : Dict V)
      → str_eq k j ≡ false
      → has_key j m ≡ false
      → has_key j (insert k v m) ≡ false
  unfolding has_key
  has_key-insert_ne j k v m n h = ground (arith, lookup-insert k j v m)

  has_key-delete : (j k : Bytes) (m : Dict V) → has_key j m ≡ false → has_key j (delete k m) ≡ false
  unfolding has_key
  has_key-delete j k m h = ground (arith, lookup-delete k j m)

  pub insert-IsMap : (k : Bytes) (v : V) (m : Dict V) → IsMap m → IsMap (insert k v m)
  unfolding insert
  insert-IsMap k v [] h = (unfold has_key in refl, tt)
  insert-IsMap k v ((j, w) ∷ m) h =
      ground (arith, str_eq_iff j k, str_eq_iff k j, has_key-insert_ne j k v m, insert-IsMap k v m)

  pub delete-IsMap : (k : Bytes) (m : Dict V) → IsMap m → IsMap (delete k m)
  unfolding delete
  delete-IsMap k [] h = tt
  delete-IsMap k ((j, w) ∷ m) h = ground (arith, has_key-delete j k m, delete-IsMap k m)
