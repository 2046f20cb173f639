-- ===== src/Expand/Scan.antt =====
-- `scanRefs` is a walk over the segments of the value.
use schain.Prelude.{
  ℕ, zero, suc, ◌+◌, ◌-◌, ◌≤◌, ◌≡◌, refl, sym, ap, ◌∙◌, true, false, ◌&&◌, none, some, inl, inr,
  List, [], ◌∷◌, ◌++◌, map, arith, ◌==◌, length, take-append_length, take-append_add, Bool-cases,
  Option-cases,
}
use schain.Prelude.Text.{Bytes, cut_byte}
use schain.Expand.{dollar, open_brace, close_brace, scan_from, scan_refs, slice}
use schain.Expand.Segments.{
  Segment, lit, ref, Parses, segments, segments-Parses, segments_plain, segments_open, segments_ref,
}

module _ {ℓ} {S : Type ℓ} (fn : Bytes → ℕ → ℕ → S → S) where
  unfoldable pub walk : List Segment → ℕ → S → S
  walk [] i s = s
  walk (lit c ∷ l) i s = walk l (i + 1) s
  walk (ref name ∷ l) i s = walk l (i + 3 + length name) (fn name i (i + 3 + length name) s)

  walk-map_lit : (t : Bytes) (i : ℕ) (s : S) → walk (map lit t) i s ≡ s
  unfolding walk
  walk-map_lit [] i s = refl
  walk-map_lit (c ∷ t) i s = walk-map_lit t (i + 1) s

  module _ (f a b : ℕ) (t : Bytes) (i : ℕ) (s : S) where
    scan_plain :
        (a == dollar && b == open_brace) ≡ false
        → scan_from fn (suc f) i (a ∷ b ∷ t) s ≡ scan_from fn f (i + 1) (b ∷ t) s
    unfolding scan_from
    scan_plain n = ground (arith, n)

    scan_open :
        (a == dollar && b == open_brace) ≡ true
        → cut_byte t close_brace ≡ none
        → scan_from fn (suc f) i (a ∷ b ∷ t) s ≡ s
    unfolding scan_from
    scan_open y e = ground (arith, y, e)

    scan_ref :
        (q : Bytes × Bytes)
        → (a == dollar && b == open_brace) ≡ true
        → cut_byte t close_brace ≡ some q
        → scan_from fn (suc f) i (a ∷ b ∷ t) s
          ≡ scan_from fn f (i + 3 + length q.0) q.1 (fn q.0 i (i + 3 + length q.0) s)
    unfolding scan_from
    scan_ref q y e = ground (arith, y, e)

  scan_from-walk :
      (f i : ℕ) (rest : Bytes) (s : S) → scan_from fn f i rest s ≡ walk (segments f rest) i s
  unfolding scan_from segments walk
  scan_from-walk zero i rest s = sym (walk-map_lit rest i s)
  scan_from-walk (suc f) i [] s = refl
  scan_from-walk (suc f) i (a ∷ []) s = refl
  scan_from-walk (suc f) i (a ∷ b ∷ t) s = elim (Bool-cases (a == dollar && b == open_brace)) [
    | inr n ↦
        scan_plain f a b t i s n
        ∙ scan_from-walk f (i + 1) (b ∷ t) s
        ∙ sym (ap (λ l. walk l i s) (segments_plain f a b t n))
    | inl y ↦ elim (Option-cases (cut_byte t close_brace)) [
      | inl e ↦
          scan_open f a b t i s y e
          ∙ sym (ap (λ l. walk l i s) (segments_open f a b t y e) ∙ walk-map_lit (a ∷ b ∷ t) i s)
      | inr (q, e) ↦
          scan_ref f a b t i s q y e
          ∙ scan_from-walk f (i + 3 + length q.0) q.1 (fn q.0 i (i + 3 + length q.0) s)
          ∙ sym (ap (λ l. walk l i s) (segments_ref f a b t q y e))
    ]
  ]

-- The callback is called on the references of the value's reading, from left to right.
pub scan_refs-walk {ℓ} :
    {S : Type ℓ} {val : Bytes} {l : List Segment} (fn : Bytes → ℕ → ℕ → S → S) (s : S)
    → Parses val l
    → scan_refs val fn s ≡ walk fn l 0 s
unfolding scan_refs
scan_refs-walk {val} {l} fn s p =
    scan_from-walk fn (length val) 0 val s
    ∙ ap (λ k. walk fn k 0 s) (segments-Parses (length val) (le_self (length val)) p)
  where
    le_self : (n : ℕ) → n ≤ n
    le_self n = omega arith

-- A slice that ends behind `x` is the slice that ends before it, and `x`.
pub slice-append :
    (pre x post : Bytes) (a : ℕ)
    → a ≤ length pre
    → slice (pre ++ (x ++ post)) a (length pre + length x)
      ≡ slice (pre ++ (x ++ post)) a (length pre) ++ x
unfolding slice
slice-append pre x post zero h =
    let e : length pre + length x - 0 ≡ length pre + length x = omega arith in
    let e' : length pre - 0 ≡ length pre = omega arith in
    rw (e, e')
      (take-append_add pre (x ++ post) (length x)
        ∙ ap (λ r. pre ++ r) (take-append_length x post)
        ∙ sym (ap (λ r. r ++ x) (take-append_length pre (x ++ post))))
slice-append [] x post (suc a) h = absurd (omega arith)
slice-append (c ∷ pre) x post (suc a) h =
    let e : suc (length pre) + length x - suc a ≡ length pre + length x - a = omega arith in
    let e' : suc (length pre) - suc a ≡ length pre - a = omega arith in
    rw (e, e') (slice-append pre x post a (omega arith))

pub slice_empty : (val : Bytes) (a : ℕ) → slice val a a ≡ []
unfolding slice
slice_empty val a = let e : a - a ≡ 0 = omega arith in rw e
