-- ===== src/Prelude/Number.antt =====
-- Go's int, and strconv.Atoi and strconv.Itoa on 64 bits.
use Prim.Native.Nat.{ℕ, zero, suc, ◌+◌, ◌-◌, ◌*◌, ◌/◌, ◌%◌, ◌^◌, ◌≤◌, ◌<◌}
use mathlib.Core.Path.{◌≡◌, refl}
use mathlib.Core.Logic.{inl, inr}
use mathlib.Core.Bool.{Bool, true, false, ◌&&◌}
use mathlib.Core.List.{[], ◌∷◌, ◌++◌}
use mathlib.Core.Option.{Option, none, some}
use native.Mathlib.Omega.{arith}
use schain.Prelude.Tests.{◌==◌, ltb, leb, if◌then◌else◌, Bool-cases}
use schain.Prelude.Text.{Bytes, contains, contains-append}

-- `negsuc n` is -(n + 1).
pub data ℤ : Type 0 where
  pos : ℕ → ℤ
  negsuc : ℕ → ℤ

abbrev pub max_int : ℕ
max_int = 2 ^ 63 - 1

abbrev pub is_digit : ℕ → Bool
is_digit c = leb b'0' c && leb c b'9'

unfoldable pub scan_digits : ℕ → Bytes → Option ℕ
scan_digits n [] = some n
scan_digits n (c ∷ s) =
    let rest = scan_digits (n * 10 + (c - b'0')) s in if is_digit c then rest else none

-- One digit at least.
unfoldable pub digits_value : Bytes → Option ℕ
unfolding scan_digits
digits_value [] = none
digits_value (c ∷ s) = scan_digits 0 (c ∷ s)

-- The sign and the range of an int64; `-n` is `negsuc (n - 1)`.
abbrev signed : Bool → Option ℕ → Option ℤ
signed neg none = none
signed true (some zero) = some (pos 0)
signed true (some (suc n)) = if leb n max_int then some (negsuc n) else none
signed false (some n) = if leb n max_int then some (pos n) else none

unfoldable pub atoi : Bytes → Option ℤ
unfolding digits_value
atoi [] = none
atoi (c ∷ s) =
    if c == b'-'
    then signed true (digits_value s)
    else if c == b'+'
    then signed false (digits_value s)
    else signed false (digits_value (c ∷ s))

-- The digits of a number, with fuel for its length; the number itself is enough.
unfoldable pub digits : ℕ → ℕ → Bytes
digits zero n = (b'0' + n) ∷ []
digits (suc f) n =
    let more = digits f (n / 10) ++ (b'0' + n % 10) ∷ [] in
    if ltb n 10 then (b'0' + n) ∷ [] else more

unfoldable pub itoa : ℕ → Bytes
unfolding digits
itoa n = digits n n

scan_digits-append :
    (s : Bytes) (c a n : ℕ)
    → scan_digits a s ≡ some n
    → is_digit c ≡ true
    → scan_digits a (s ++ c ∷ []) ≡ some (n * 10 + (c - b'0'))
unfolding scan_digits
scan_digits-append [] c a n h k = ground arith
scan_digits-append (x ∷ s) c a n h k =
    ground (arith, scan_digits-append s c (a * 10 + (x - b'0')) n)

scan_digits-digits : (f n : ℕ) → n ≤ f → scan_digits 0 (digits f n) ≡ some n
unfolding digits
scan_digits-digits zero n h = unfold scan_digits in ground arith
scan_digits-digits (suc f) n h = ground (
  arith,
  scan_digits-digits f (n / 10),
  scan_digits-append (digits f (n / 10)) (b'0' + n % 10) 0 (n / 10),
  scan_digits_one n,
)
  where
    scan_digits_one : (m : ℕ) → m < 10 → scan_digits 0 ((b'0' + m) ∷ []) ≡ some m
    scan_digits_one m k = unfold scan_digits in ground arith

-- What the first byte of a print is: a digit, so neither sign.
digits_first :
    (f n : ℕ) → n ≤ f → (c : ℕ) × (s : Bytes) × (digits f n ≡ c ∷ s) × (is_digit c ≡ true)
unfolding digits
digits_first zero n h = (b'0' + n, [], refl, ground arith)
digits_first (suc f) n h = go (digits_first f (n / 10) (omega arith))
  where
    go :
        ((c : ℕ) × (s : Bytes) × (digits f (n / 10) ≡ c ∷ s) × (is_digit c ≡ true))
        → (c : ℕ) × (s : Bytes) × (digits (suc f) n ≡ c ∷ s) × (is_digit c ≡ true)
    go (c, s, e, d) = elim (Bool-cases (ltb n 10)) [
      | inl t ↦ (b'0' + n, [], ground (arith, t), ground (arith, t))
      | inr t ↦ (c, s ++ (b'0' + n % 10) ∷ [], ground (arith, e, t), d)
    ]

atoi-digits :
    (n c : ℕ) (s : Bytes)
    → is_digit c ≡ true
    → scan_digits 0 (c ∷ s) ≡ some n
    → n ≤ max_int
    → atoi (c ∷ s) ≡ some (pos n)
unfolding atoi
atoi-digits n c s d h k = ground arith

-- Every count that fits an int is read back from its decimal print.
pub atoi-itoa : (n : ℕ) → n ≤ max_int → atoi (itoa n) ≡ some (pos n)
unfolding itoa
atoi-itoa n h =
    let (c, s, e, d) = digits_first n n (omega arith) in
    rw e (atoi-digits n c s d (rw e at (scan_digits-digits n n (omega arith))) h)

digits-contains : (f n c : ℕ) → n ≤ f → is_digit c ≡ false → contains (digits f n) c ≡ false
unfolding digits contains
digits-contains zero n c h k = ground arith
digits-contains (suc f) n c h k = ground (
  arith,
  digits-contains f (n / 10) c,
  contains-append (digits f (n / 10)) ((b'0' + n % 10) ∷ []) c,
)

-- A print has digits only.
pub itoa-contains : (n c : ℕ) → is_digit c ≡ false → contains (itoa n) c ≡ false
unfolding itoa
itoa-contains n c h = digits-contains n n c (omega arith) h
