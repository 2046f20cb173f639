-- ===== src/Prelude/Text.antt =====
-- Go strings and byte slices as lists of bytes, with what the program uses of the package strings.
use Prim.Native.Nat.{ℕ}
use Prim.Native.Char.{code}
use Prim.Native.String.{String}
use mathlib.Core.Path.{◌≡◌, refl}
use mathlib.Core.Logic.{◌↔◌, inl, inr}
use mathlib.Core.Bool.{Bool, true, false, ◌&&◌, ◌||◌}
use mathlib.Core.List.{List, [], ◌∷◌, ◌++◌}
use mathlib.Core.Option.{Option, none, some}
use native.Mathlib.Omega.{arith}
use schain.Prelude.Tests.{◌==◌, Option-cases}

abbrev pub Bytes : Type 0
Bytes = List ℕ

-- The code points of a literal; these are its bytes where the text is ASCII.
abbrev pub codes : String → Bytes
codes String.[] = []
codes (String.◌∷◌ c s) = code c ∷ codes s

-- `a == b` on strings, and bytes.Equal
unfoldable pub str_eq : Bytes → Bytes → Bool
str_eq [] [] = true
str_eq [] (b ∷ t) = false
str_eq (a ∷ s) [] = false
str_eq (a ∷ s) (b ∷ t) = a == b && str_eq s t

pub str_eq_refl : (s : Bytes) → str_eq s s ≡ true
unfolding str_eq
str_eq_refl [] = refl
str_eq_refl (a ∷ s) = ground (arith, str_eq_refl s)

pub str_eq_sound : (s t : Bytes) → str_eq s t ≡ true → s ≡ t
unfolding str_eq
str_eq_sound [] [] h = refl
str_eq_sound [] (b ∷ t) h = cc
str_eq_sound (a ∷ s) [] h = cc
str_eq_sound (a ∷ s) (b ∷ t) h = ground (arith, str_eq_sound s t)

pub str_eq_iff : (s t : Bytes) → (str_eq s t ≡ true) ↔ (s ≡ t)
str_eq_iff s t = (str_eq_sound s t, λ e. rw (← e) (str_eq_refl s))

-- strings.HasPrefix
unfoldable pub has_prefix : Bytes → Bytes → Bool
has_prefix s [] = true
has_prefix [] (p ∷ ps) = false
has_prefix (c ∷ s) (p ∷ ps) = c == p && has_prefix s ps

-- strings.Contains of one byte
unfoldable pub contains : Bytes → ℕ → Bool
contains [] c = false
contains (x ∷ s) c = x == c || contains s c

-- strings.IndexByte, as the text before the byte and the text behind it
unfoldable pub cut_byte : Bytes → ℕ → Option (Bytes × Bytes)
cut_byte [] c = none
cut_byte (x ∷ s) c = elim (x == c) [
  | true ↦ some ([], s)
  | false ↦ elim (cut_byte s c) [ none ↦ none | some (a, b) ↦ some (x ∷ a, b) ]
]

-- The text is its two parts with the byte between them, and the first part lacks the byte.
pub cut_byte_sound :
    (s : Bytes) (c : ℕ) (p : Bytes × Bytes)
    → cut_byte s c ≡ some p
    → (s ≡ p.0 ++ c ∷ p.1) × (contains p.0 c ≡ false)
unfolding cut_byte contains
cut_byte_sound [] c p h = cc
cut_byte_sound (x ∷ s) c p h = elim (Option-cases (cut_byte s c)) [
  | inl e ↦ ground (arith, e)
  | inr (q, e) ↦ ground (arith, e, cut_byte_sound s c q)
]

pub cut_byte-append :
    (a b : Bytes) (c : ℕ) → contains a c ≡ false → cut_byte (a ++ c ∷ b) c ≡ some (a, b)
unfolding cut_byte contains
cut_byte-append [] b c h = ground arith
cut_byte-append (x ∷ a) b c h = ground (arith, cut_byte-append a b c)

pub cut_byte-none : (s : Bytes) (c : ℕ) → contains s c ≡ false → cut_byte s c ≡ none
unfolding cut_byte contains
cut_byte-none [] c h = refl
cut_byte-none (x ∷ s) c h = ground (arith, cut_byte-none s c)

pub contains-cut_byte-none : (s : Bytes) (c : ℕ) → cut_byte s c ≡ none → contains s c ≡ false
unfolding cut_byte contains
contains-cut_byte-none [] c h = refl
contains-cut_byte-none (x ∷ s) c h = elim (Option-cases (cut_byte s c)) [
  | inl e ↦ ground (arith, e, contains-cut_byte-none s c)
  | inr (q, e) ↦ ground (arith, e)
]

abbrev pub or_else {ℓ} : {A : Type ℓ} → Option A → A → A
or_else none d = d
or_else (some a) d = a

-- Membership of a string in a slice, as a test.
unfoldable pub member : Bytes → List Bytes → Bool
member k [] = false
member k (x ∷ xs) = str_eq x k || member k xs

pub member-append :
    (k : Bytes) (xs ys : List Bytes) → member k (xs ++ ys) ≡ (member k xs || member k ys)
unfolding member
member-append k [] ys = refl
member-append k (x ∷ xs) ys = ground (arith, member-append k xs ys)

pub contains-append : (s t : Bytes) (c : ℕ) → contains (s ++ t) c ≡ (contains s c || contains t c)
unfolding contains
contains-append [] t c = refl
contains-append (x ∷ s) t c = ground (arith, contains-append s t c)
