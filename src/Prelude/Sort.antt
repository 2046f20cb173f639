-- ===== src/Prelude/Sort.antt =====
-- sort.Strings and sort.Slice: sorting by a strict test, as an insertion sort.
use mathlib.Core.Path.{◌≡◌, refl}
use mathlib.Core.Logic.{◌≢◌}
use mathlib.Core.Bool.{Bool, true, false, ◌&&◌, ◌||◌}
use mathlib.Core.List.{List, [], ◌∷◌}
use native.Mathlib.Omega.{arith}
use schain.Prelude.Tests.{◌==◌, ltb, if◌then◌else◌}
use schain.Prelude.Lists.{All, length}
use schain.Prelude.Text.{Bytes, str_eq, member}

module _ {ℓ} {A : Type ℓ} (less : A → A → Bool) where
  unfoldable pub insert_by : A → List A → List A
  insert_by x [] = x ∷ []
  insert_by x (y ∷ ys) = if less x y then x ∷ y ∷ ys else y ∷ insert_by x ys

  unfoldable pub sort_by : List A → List A
  unfolding insert_by
  sort_by [] = []
  sort_by (x ∷ xs) = insert_by x (sort_by xs)

  pub length-insert_by : (x : A) (ys : List A) → length (insert_by x ys) ≡ length (x ∷ ys)
  unfolding insert_by
  length-insert_by x [] = refl
  length-insert_by x (y ∷ ys) = ground (arith, length-insert_by x ys)

module _ {ℓ} {A : Type ℓ} (less : A → A → Bool) where
  pub insert_by-ne-nil : (x : A) (ys : List A) → insert_by less x ys ≢ []
  unfolding insert_by
  insert_by-ne-nil x [] h = cc
  insert_by-ne-nil x (y ∷ ys) h = ground arith

-- `a < b` on strings: byte by byte, a prefix first
unfoldable pub str_lt : Bytes → Bytes → Bool
str_lt [] [] = false
str_lt [] (b ∷ t) = true
str_lt (a ∷ s) [] = false
str_lt (a ∷ s) (b ∷ t) = ltb a b || (a == b && str_lt s t)

pub str_lt_asym : (s t : Bytes) → str_lt s t ≡ true → str_lt t s ≡ false
unfolding str_lt
str_lt_asym [] [] h = cc
str_lt_asym [] (b ∷ t) h = refl
str_lt_asym (a ∷ s) [] h = cc
str_lt_asym (a ∷ s) (b ∷ t) h = ground (arith, str_lt_asym s t)

abbrev pub sort_strings : List Bytes → List Bytes
sort_strings = sort_by str_lt

-- No element is followed at once by a smaller one.
abbrev pub FirstNotAbove : Bytes → List Bytes → Type 0
FirstNotAbove x [] = Unit
FirstNotAbove x (y ∷ ys) = str_lt y x ≡ false

abbrev pub IsSorted : List Bytes → Type 0
IsSorted [] = Unit
IsSorted (x ∷ ys) = FirstNotAbove x ys × IsSorted ys

FirstNotAbove-insert_by :
    (z x : Bytes) (ys : List Bytes)
    → str_lt x z ≡ false
    → FirstNotAbove z ys
    → FirstNotAbove z (insert_by str_lt x ys)
unfolding insert_by
FirstNotAbove-insert_by z x [] h k = h
FirstNotAbove-insert_by z x (y ∷ ys) h k = ground arith

insert_by-IsSorted : (x : Bytes) (ys : List Bytes) → IsSorted ys → IsSorted (insert_by str_lt x ys)
unfolding insert_by
insert_by-IsSorted x [] h = (tt, tt)
insert_by-IsSorted x (y ∷ ys) h =
    ground (arith, str_lt_asym x y, insert_by-IsSorted x ys, FirstNotAbove-insert_by y x ys)

pub sort_by-IsSorted : (xs : List Bytes) → IsSorted (sort_strings xs)
unfolding sort_by
sort_by-IsSorted [] = tt
sort_by-IsSorted (x ∷ xs) = insert_by-IsSorted x (sort_strings xs) (sort_by-IsSorted xs)

member-insert_by :
    (k x : Bytes) (ys : List Bytes) → member k (insert_by str_lt x ys) ≡ (str_eq x k || member k ys)
unfolding insert_by member
member-insert_by k x [] = refl
member-insert_by k x (y ∷ ys) = ground (arith, member-insert_by k x ys)

-- Sorting keeps what is in the slice.
pub member-sort_by : (k : Bytes) (xs : List Bytes) → member k (sort_strings xs) ≡ member k xs
unfolding sort_by member
member-sort_by k [] = refl
member-sort_by k (x ∷ xs) =
    ground (arith, member-insert_by k x (sort_strings xs), member-sort_by k xs)

module _ {ℓ κ} {A : Type ℓ} (less : A → A → Bool) (P : A → Type κ) where
  All-insert_by : (x : A) (ys : List A) → P x → All P ys → All P (insert_by less x ys)
  unfolding insert_by
  All-insert_by x [] px h = (px, tt)
  All-insert_by x (y ∷ ys) px (py, h) = go (less x y) (All-insert_by x ys px h)
    where
      go :
          (b : Bool)
          → All P (insert_by less x ys)
          → All P (if b then x ∷ y ∷ ys else y ∷ insert_by less x ys)
      go true r = (px, (py, h))
      go false r = (py, r)

  pub All-sort_by : (xs : List A) → All P xs → All P (sort_by less xs)
  unfolding sort_by
  All-sort_by [] h = tt
  All-sort_by (x ∷ xs) (px, h) = All-insert_by x (sort_by less xs) px (All-sort_by xs h)
