-- ===== src/Askpass/Lines.antt =====
-- askpass.go: the first line of a text, and of as much of it as is read.
use schain.Prelude.{
  ℕ, zero, suc, ◌+◌, ◌≤◌, ◌≡◌, refl, ap, ◌⊎◌, false, inl, inr, [], ◌∷◌, arith, if◌then◌else◌, ◌==◌,
  Bool-cases, length, take,
}
use schain.Prelude.Text.{Bytes, contains}
use schain.Askpass.{line_of, trim_return, first_line}

line_of-nil : line_of [] ≡ []
unfolding line_of
line_of-nil = refl

line_of-cons : (c : ℕ) (s : Bytes) → line_of (c ∷ s) ≡ (if c == 10 then [] else c ∷ line_of s)
unfolding line_of
line_of-cons c s = ground arith

-- A prefix has the same first line, or its first line is the whole prefix and fills it.
line_of-take :
    (n : ℕ) (s : Bytes) → (line_of (take n s) ≡ line_of s) ⊎ (n ≤ length (line_of (take n s)))
line_of-take zero s = inr (omega arith)
line_of-take (suc n) [] = inl refl
line_of-take (suc n) (c ∷ s) = elim (Bool-cases (c == 10)) [
  | inl y ↦ inl (rw (line_of-cons c (take n s), line_of-cons c s, y) refl)
  | inr m ↦ elim (line_of-take n s) [
    | inl e ↦ inl (rw (line_of-cons c (take n s), line_of-cons c s, m, e) refl)
    | inr h ↦ inr (rw (line_of-cons c (take n s), m) (omega arith))
  ]
]

pub length-trim_return :
    (s : Bytes) → (length (trim_return s) ≤ length s) × (length s ≤ length (trim_return s) + 1)
unfolding trim_return
length-trim_return [] = omega arith
length-trim_return (c ∷ []) = ground arith
length-trim_return (c ∷ d ∷ s) = omega (arith, length-trim_return (d ∷ s))

contains-trim_return :
    (s : Bytes) (k : ℕ) → contains s k ≡ false → contains (trim_return s) k ≡ false
unfolding trim_return contains
contains-trim_return [] k h = refl
contains-trim_return (c ∷ []) k h = ground arith
contains-trim_return (c ∷ d ∷ s) k h = ground (arith, contains-trim_return (d ∷ s) k)

contains-line_of : (s : Bytes) → contains (line_of s) 10 ≡ false
unfolding contains
contains-line_of [] = rw line_of-nil refl
contains-line_of (c ∷ s) = ground (arith, line_of-cons c s, contains-line_of s)

length-line_of : (s : Bytes) → length (line_of s) ≤ length s
length-line_of [] = rw line_of-nil (omega arith)
length-line_of (c ∷ s) = ground (arith, line_of-cons c s, length-line_of s)

pub contains-first_line : (s : Bytes) → contains (first_line s) 10 ≡ false
unfolding first_line
contains-first_line s = contains-trim_return (line_of s) 10 (contains-line_of s)

pub length-first_line : (s : Bytes) → length (first_line s) ≤ length s
unfolding first_line
length-first_line s = omega (arith, length-trim_return (line_of s), length-line_of s)

-- A first line that leaves room for two more bytes is the first line of the whole text.
pub first_line-take :
    (n : ℕ) (s : Bytes)
    → length (first_line (take n s)) + 2 ≤ n
    → first_line (take n s) ≡ first_line s
unfolding first_line
first_line-take n s h = elim (line_of-take n s) [
  | inl e ↦ ap trim_return e
  | inr k ↦ absurd (omega (arith, length-trim_return (line_of (take n s))))
]
