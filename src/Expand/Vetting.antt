-- ===== src/Expand/Vetting.antt =====
-- `checkExpand` and `expandRefs` against the reading of a value.
use schain.Prelude.{
  ℕ, ◌+◌, ◌≡◌, ◌≢◌, ◌↔◌, refl, sym, ap, ◌∙◌, Bool, true, false, ◌||◌, not, none, inl, inr, List, [],
  ◌∷◌, ◌++◌, arith, Bool-cases, append_assoc, append-nil, if◌then◌else◌, length, All,
}
use schain.Prelude.Text.{Bytes, member}
use schain.Fail.{ok}
use schain.Expand.{
  ref_text, expand_one, is_known, expand_value, collect_ref, expand_refs, vet_ref, verdict,
  check_expand,
}
use schain.Expand.Segments.{
  Segment, lit, ref, Parses, render, render-Parses, segments, Parses-segments,
}
use native.Mathlib.Nat.{le_refl}
use schain.Expand.Scan.{walk, scan_refs-walk}
use schain.Expand.Values.{resolve, first_unset, expansion_of, expand_value-eq-expansion_of}

-- The names of the references, from left to right.
unfoldable pub names : List Segment → List Bytes
names [] = []
names (lit c ∷ l) = names l
names (ref name ∷ l) = name ∷ names l

is_nil : List Bytes → Bool
is_nil [] = true
is_nil (n ∷ ns) = false

is_nil-ne : (ns : List Bytes) → ns ≢ [] → is_nil ns ≡ false
unfolding is_nil
is_nil-ne [] h = absurd (h refl)
is_nil-ne (n ∷ ns) h = refl

module _ (getenv : Bytes → Bytes) where
  abbrev pub IsKnown : Bytes → Type 0
  IsKnown name = is_known getenv name ≡ true

  unfoldable pub any_known : List Bytes → Bool
  any_known [] = false
  any_known (n ∷ ns) = is_known getenv n || any_known ns

  unfoldable pub unknown_texts : List Bytes → List Bytes
  unknown_texts [] = []
  unknown_texts (n ∷ ns) =
      if is_known getenv n then unknown_texts ns else ref_text n ∷ unknown_texts ns

  walk-vet_ref :
      (l : List Segment) (i : ℕ) (found : Bool) (bad : List Bytes)
      → walk (vet_ref getenv) l i (found, bad)
        ≡ (found || any_known (names l), bad ++ unknown_texts (names l))
  unfolding walk names any_known unknown_texts
  walk-vet_ref [] i true bad = rw append-nil
  walk-vet_ref [] i false bad = rw append-nil
  walk-vet_ref (lit c ∷ l) i found bad = walk-vet_ref l (i + 1) found bad
  walk-vet_ref (ref name ∷ l) i found bad = elim (Bool-cases (is_known getenv name)) [
    | inl k ↦
        ap (λ t. walk (vet_ref getenv) l (i + 3 + length name) t) (vet_known k)
        ∙ walk-vet_ref l (i + 3 + length name) true bad
        ∙ unfold any_known unknown_texts in ground (arith, k)
    | inr n ↦
        ap (λ t. walk (vet_ref getenv) l (i + 3 + length name) t) (vet_unknown n)
        ∙ walk-vet_ref l (i + 3 + length name) found (bad ++ ref_text name ∷ [])
        ∙ rw (n, any_known, unknown_texts) (simp append_assoc)
  ]
    where
      vet_known :
          is_known getenv name ≡ true
          → vet_ref getenv name i (i + 3 + length name) (found, bad) ≡ (true, bad)
      vet_known k = unfold vet_ref in ground (arith, k)

      vet_unknown :
          is_known getenv name ≡ false
          → vet_ref getenv name i (i + 3 + length name) (found, bad)
            ≡ (found, bad ++ ref_text name ∷ [])
      vet_unknown n = unfold vet_ref in ground (arith, n)

  unknown_texts-nil : (ns : List Bytes) → unknown_texts ns ≡ [] → All IsKnown ns
  unfolding unknown_texts
  unknown_texts-nil [] h = tt
  unknown_texts-nil (m ∷ ms) h = ground (arith, unknown_texts-nil ms)

  known_verdict :
      (ns : List Bytes)
      → All IsKnown ns
      → (unknown_texts ns ≡ []) × (any_known ns ≡ not (is_nil ns))
  unfolding unknown_texts any_known is_nil
  known_verdict [] h = (refl, refl)
  known_verdict (m ∷ ms) h = ground (arith, known_verdict ms)

  any_known-nil : (ns : List Bytes) → any_known ns ≡ true → ns ≢ []
  unfolding any_known
  any_known-nil [] h e = cc
  any_known-nil (m ∷ ms) h e = cc

  verdict_parts :
      (key : Bytes) (found : Bool) (bad : List Bytes)
      → (verdict key (found, bad) ≡ ok tt) ↔ ((found ≡ true) × (bad ≡ []))
  unfolding verdict
  verdict_parts key true [] = ground arith
  verdict_parts key false [] = ground arith
  verdict_parts key true (b ∷ bad) = ground arith
  verdict_parts key false (b ∷ bad) = ground arith

  verdict_iff :
      (key : Bytes) (ns : List Bytes)
      → (verdict key (any_known ns, unknown_texts ns) ≡ ok tt) ↔ (All IsKnown ns × (ns ≢ []))
  verdict_iff key ns = (sound, complete)
    where
      sound : verdict key (any_known ns, unknown_texts ns) ≡ ok tt → All IsKnown ns × (ns ≢ [])
      sound h =
          let v = (verdict_parts key (any_known ns) (unknown_texts ns)).0 h in
          (unknown_texts-nil ns v.1, any_known-nil ns v.0)

      complete : All IsKnown ns × (ns ≢ []) → verdict key (any_known ns, unknown_texts ns) ≡ ok tt
      complete (h, n) =
          let k = known_verdict ns h in
          (verdict_parts key (any_known ns) (unknown_texts ns)).1
            (k.1 ∙ ap not (is_nil-ne ns n), k.0)

  walk-collect_ref-ne-nil :
      (l : List Segment) (i : ℕ) (r : Bytes) (rs seen : List Bytes)
      → (walk (collect_ref getenv) l i (r ∷ rs, seen)).0 ≢ []
  unfolding walk collect_ref
  walk-collect_ref-ne-nil [] i r rs seen h = cc
  walk-collect_ref-ne-nil (lit c ∷ l) i r rs seen h = walk-collect_ref-ne-nil l (i + 1) r rs seen h
  walk-collect_ref-ne-nil (ref name ∷ l) i r rs seen h = ground (
    arith,
    walk-collect_ref-ne-nil l (i + 3 + length name) r rs seen,
    walk-collect_ref-ne-nil l (i + 3 + length name) r (rs ++ ref_text name ∷ []) (name ∷ seen),
  )

  abbrev IsUnknown : Bytes → Type 0
  IsUnknown name = is_known getenv name ≡ false

  collect_ref-nil :
      (l : List Segment) (i : ℕ)
      → (walk (collect_ref getenv) l i ([], [])).0 ≡ []
      → All IsUnknown (names l)
  unfolding walk collect_ref names member
  collect_ref-nil [] i h = tt
  collect_ref-nil (lit c ∷ l) i h = collect_ref-nil l (i + 1) h
  collect_ref-nil (ref name ∷ l) i h = ground (
    arith,
    collect_ref-nil l (i + 3 + length name),
    walk-collect_ref-ne-nil l (i + 3 + length name) (ref_text name) [] (name ∷ []),
  )

  -- Whether a name is known does not depend on the directory.
  expand_one-none :
      (name dir : Bytes) → is_known getenv name ≡ false → expand_one getenv name dir ≡ none
  unfolding is_known expand_one
  expand_one-none name dir h = ground arith

  unknown_stays :
      (dir : Bytes) (l : List Segment)
      → All IsUnknown (names l)
      → (first_unset getenv dir l ≡ none) × (resolve getenv dir l ≡ render l)
  unfolding names first_unset resolve render
  unknown_stays dir [] h = (refl, refl)
  unknown_stays dir (lit c ∷ l) h = let r = unknown_stays dir l h in (r.0, ap (λ t. c ∷ t) r.1)
  unknown_stays dir (ref name ∷ l) h =
      ground (arith, expand_one-none name dir h.0, unknown_stays dir l h.1)

-- checkExpand accepts a value exactly when it holds a reference and every reference in it is to one
-- of the names that the program substitutes.
pub check_expand_iff :
    (getenv : Bytes → Bytes) (key val : Bytes) {l : List Segment}
    → Parses val l
    → (check_expand getenv key val ≡ ok tt) ↔ (All (IsKnown getenv) (names l) × (names l ≢ []))
unfolding check_expand
check_expand_iff getenv key val {l} p =
    rw (scan_refs-walk (vet_ref getenv) (false, []) p, walk-vet_ref getenv l 0 false [])
      (verdict_iff getenv key (names l))

-- If expandRefs, which `ls -v` reports, lists no reference of a value, then expandValue returns the
-- value as it is stored, whatever the directory.
pub expand_value_literal :
    (getenv : Bytes → Bytes) (val dir : Bytes)
    → expand_refs getenv val ≡ []
    → expand_value getenv val dir ≡ ok val
unfolding expand_refs expansion_of
expand_value_literal getenv val dir h =
    let p = Parses-segments (length val) val (le_refl _) in
    let l = segments (length val) val in
    let un = collect_ref-nil getenv l 0 (
      ap (λ (t : List Bytes × List Bytes). t.0)
        (sym (scan_refs-walk (collect_ref getenv) ([], []) p))
      ∙ h) in
    let r = unknown_stays getenv dir l un in
    expand_value-eq-expansion_of getenv val dir p
    ∙ rw (r.0, expansion_of) (ap ok (r.1 ∙ render-Parses p))
