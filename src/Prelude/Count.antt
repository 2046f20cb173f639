-- ===== src/Prelude/Count.antt =====
-- How often a key is in a list, and what sorting and a map without repeated keys say of it.
use Prim.Native.Nat.{ℕ}
use mathlib.Core.Path.{◌≡◌, refl}
use mathlib.Core.Logic.{inl, inr}
use mathlib.Core.List.{List, [], ◌∷◌, ◌++◌}
use native.Mathlib.Omega.{arith}
use Prim.Native.Nat.{◌+◌}
use schain.Prelude.Tests.{if◌then◌else◌, Bool-cases}
use schain.Prelude.Text.{Bytes, str_eq, str_eq_sound}
use schain.Prelude.Sort.{sort_by, sort_strings, insert_by, str_lt}
use schain.Prelude.Dict.{Dict, IsMap, has_key, keys_of, lookup}

unfoldable pub count : Bytes → List Bytes → ℕ
count k [] = 0
count k (x ∷ xs) = if str_eq x k then 1 + count k xs else count k xs

pub count-append : (k : Bytes) (xs ys : List Bytes) → count k (xs ++ ys) ≡ count k xs + count k ys
unfolding count
count-append k [] ys = omega arith
count-append k (x ∷ xs) ys = ground (arith, count-append k xs ys)

count-insert_by :
    (k x : Bytes) (ys : List Bytes) → count k (insert_by str_lt x ys) ≡ count k (x ∷ ys)
unfolding insert_by count
count-insert_by k x [] = refl
count-insert_by k x (y ∷ ys) = ground (arith, count-insert_by k x ys)

-- Sorting neither drops nor repeats.
pub count-sort_by : (k : Bytes) (xs : List Bytes) → count k (sort_strings xs) ≡ count k xs
unfolding sort_by count
count-sort_by k [] = refl
count-sort_by k (x ∷ xs) = ground (arith, count-insert_by k x (sort_strings xs), count-sort_by k xs)

module _ {ℓ} {V : Type ℓ} where
  -- A map has each of its keys once.
  pub count-keys_of :
      (k : Bytes) (m : Dict V) → IsMap m → count k (keys_of m) ≡ (if has_key k m then 1 else 0)
  unfolding count keys_of has_key lookup
  count-keys_of k [] h = refl
  count-keys_of k ((j, v) ∷ m) (n, h) = elim (Bool-cases (str_eq j k)) [
    | inr y ↦ ground (arith, y, count-keys_of k m h)
    | inl y ↦ ground (arith, y, count-keys_of j m h, str_eq_sound j k y, n)
  ]
