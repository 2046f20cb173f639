-- ===== src/Expand/Values.antt =====
-- What `expandValue` returns, against a description with no indices.
use schain.Prelude.{
  ℕ, ◌+◌, ◌≤◌, ◌≡◌, refl, sym, ap, ◌∙◌, Option, none, some, inl, inr, List, [], ◌∷◌, ◌++◌, arith,
  length, length-append, Option-cases, append_assoc, append-nil, if◌then◌else◌,
}
use schain.Prelude.Text.{Bytes, str_eq}
use schain.Fail.{Result, ok, err, not_set}
use schain.Expand.{
  close_brace, ref_text, slice, Expansion, start_expansion, expand_one, note_unset, substitute,
  finish, expand_value,
}
use schain.Expand.Segments.{Segment, lit, ref, Parses, render, render-Parses}
use schain.Expand.Scan.{walk, scan_refs-walk, slice-append, slice_empty}

module _ (getenv : Bytes → Bytes) (dir : Bytes) where
  -- What a segment becomes.
  unfoldable pub image : Segment → Bytes
  image (lit c) = c ∷ []
  image (ref name) = elim (expand_one getenv name dir) [ none ↦ ref_text name | some got ↦ got ]

  unfoldable pub resolve : List Segment → Bytes
  unfolding image
  resolve [] = []
  resolve (x ∷ l) = image x ++ resolve l

  -- The first known name that resolves to nothing.
  unfoldable pub first_unset : List Segment → Option Bytes
  first_unset [] = none
  first_unset (lit c ∷ l) = first_unset l
  first_unset (ref name ∷ l) = elim (expand_one getenv name dir) [
    | none ↦ first_unset l
    | some got ↦ if str_eq got [] then some name else first_unset l
  ]

  -- The whole contract: an unset name is an error, and else every segment is replaced by its image.
  unfoldable pub expansion_of : List Segment → Result Bytes
  unfolding first_unset resolve
  expansion_of l = elim (first_unset l) [ some name ↦ err (not_set name) | none ↦ ok (resolve l) ]

  module _ (val : Bytes) where
    -- The variables after a known reference.
    abbrev taken : Bytes → Bytes → ℕ → Expansion → Expansion
    taken name got i s = record {
      b = s.b ++ slice val s.last i ++ got;
      unset = note_unset name got s.unset;
      last = i + 3 + length name;
    }

    substitute_unknown :
        (name : Bytes) (i j : ℕ) (s : Expansion)
        → expand_one getenv name dir ≡ none
        → substitute getenv val dir name i j s ≡ s
    unfolding substitute
    substitute_unknown name i j s e = rw (e, substitute)

    substitute_known :
        (name got : Bytes) (i : ℕ) (s : Expansion)
        → expand_one getenv name dir ≡ some got
        → substitute getenv val dir name i (i + 3 + length name) s ≡ taken name got i s
    unfolding substitute
    substitute_known name got i s e = rw (e, substitute)

    run : List Segment → ℕ → Expansion → Expansion
    unfolding walk
    run l i s = walk (substitute getenv val dir) l i s

    run_unknown :
        (name : Bytes) (l : List Segment) (i : ℕ) (s : Expansion)
        → expand_one getenv name dir ≡ none
        → run (ref name ∷ l) i s ≡ run l (i + 3 + length name) s
    unfolding run
    run_unknown name l i s e =
        ap (λ t. walk (substitute getenv val dir) l (i + 3 + length name) t)
          (substitute_unknown name i (i + 3 + length name) s e)

    run_known :
        (name got : Bytes) (l : List Segment) (i : ℕ) (s : Expansion)
        → expand_one getenv name dir ≡ some got
        → run (ref name ∷ l) i s ≡ run l (i + 3 + length name) (taken name got i s)
    unfolding run
    run_known name got l i s e =
        ap (λ t. walk (substitute getenv val dir) l (i + 3 + length name) t)
          (substitute_known name got i s e)

    abbrev first_of_two : Option Bytes → Option Bytes → Option Bytes
    first_of_two (some n) o = some n
    first_of_two none o = o

    run_unset :
        (l : List Segment) (i : ℕ) (s : Expansion)
        → (run l i s).unset ≡ first_of_two s.unset (first_unset l)
    unfolding run first_unset
    run_unset [] i s = ground arith
    run_unset (lit c ∷ l) i s = run_unset l (i + 1) s
    run_unset (ref name ∷ l) i s = elim (Option-cases (expand_one getenv name dir)) [
      | inl e ↦ ground (arith, e, run_unknown name l i s e, run_unset l (i + 3 + length name) s)
      | inr (got, e) ↦ ground (
        arith,
        e,
        run_known name got l i s e,
        run_unset l (i + 3 + length name) (taken name got i s),
        note_unset_lem name got s.unset,
      )
    ]
      where
        note_unset_lem :
            (n got : Bytes) (o : Option Bytes)
            → note_unset n got o ≡ first_of_two o (if str_eq got [] then some n else none)
        note_unset_lem n got none = unfold note_unset in refl
        note_unset_lem n got (some e) = unfold note_unset in refl

    run_last : (l : List Segment) (i : ℕ) (s : Expansion) → s.last ≤ i → s.last ≤ (run l i s).last
    unfolding run
    run_last [] i s h = omega arith
    run_last (lit c ∷ l) i s h = run_last l (i + 1) s (omega arith)
    run_last (ref name ∷ l) i s h = elim (Option-cases (expand_one getenv name dir)) [
      | inl e ↦ ground (arith, run_unknown name l i s e, run_last l (i + 3 + length name) s)
      | inr (got, e) ↦
          ground (
            arith,
            run_known name got l i s e,
            run_last l (i + 3 + length name) (taken name got i s),
          )
    ]

    -- If no byte was taken over, no reference is known, and the text stays as it is.
    run_untouched :
        (l : List Segment) (i : ℕ) (s : Expansion)
        → s.last ≤ i
        → (run l i s).last ≡ 0
        → resolve l ≡ render l
    unfolding run resolve render
    run_untouched [] i s h z = refl
    run_untouched (lit c ∷ l) i s h z = ap (λ r. c ∷ r) (run_untouched l (i + 1) s (omega arith) z)
    run_untouched (ref name ∷ l) i s h z = elim (Option-cases (expand_one getenv name dir)) [
      | inl e ↦
          rw (e, image)
            (ap (λ r. ref_text name ++ r)
              (run_untouched l (i + 3 + length name) s (omega arith)
                (rw (run_unknown name l i s e) at z)))
      | inr (got, e) ↦ absurd (
          omega (
            arith,
            ap (λ (t : Expansion). t.last) (run_known name got l i s e),
            run_last l (i + 3 + length name) (taken name got i s) (omega arith),
          ))
    ]

    slice_grow :
        (pre x post : Bytes) (a i j : ℕ)
        → val ≡ pre ++ (x ++ post)
        → i ≡ length pre
        → j ≡ i + length x
        → a ≤ i
        → slice val a j ≡ slice val a i ++ x
    slice_grow pre x post a i j h ei ej k = rw (ej, ei, h) (slice-append pre x post a (omega arith))

    abbrev written : Expansion → Bytes
    written r = r.b ++ slice val r.last (length val)

    length-ref_text : (name : Bytes) → length (ref_text name) ≡ 3 + length name
    length-ref_text name = omega (arith, length-append name (close_brace ∷ []))

    -- What was written, the part of the value still to be copied, and the rest resolved.
    run_text :
        (l : List Segment) (pre : Bytes) (i : ℕ) (s : Expansion)
        → val ≡ pre ++ render l
        → i ≡ length pre
        → s.last ≤ i
        → written (run l i s) ≡ s.b ++ slice val s.last i ++ resolve l
    unfolding run render resolve
    run_text [] pre i s h ei k =
        let e : length val ≡ i = ap length (h ∙ append-nil pre) ∙ sym ei in rw e (rw append-nil)
    run_text (lit c ∷ l) pre i s h ei k =
        run_text l (pre ++ c ∷ []) (i + 1) s (h ∙ sym (append_assoc pre (c ∷ []) (render l)))
          (omega (arith, length-append pre (c ∷ []))) (omega arith)
        ∙ rw (slice_grow pre (c ∷ []) (render l) s.last i (i + 1) h ei refl k) (simp append_assoc)
    run_text (ref name ∷ l) pre i s h ei k = elim (Option-cases (expand_one getenv name dir)) [
      | inl e ↦
          ap written (run_unknown name l i s e)
          ∙ run_text l (pre ++ ref_text name) j s behind here (omega arith)
          ∙ rw (e, image)
              (rw (slice_grow pre (ref_text name) (render l) s.last i j h ei j_lem k)
                (simp append_assoc))
      | inr (got, e) ↦
          ap written (run_known name got l i s e)
          ∙ run_text l (pre ++ ref_text name) j (taken name got i s) behind here (omega arith)
          ∙ rw (e, image) (rw (slice_empty val j) (simp (append_assoc, append-nil)))
    ]
      where
        j : ℕ
        j = i + 3 + length name

        j_lem : j ≡ i + length (ref_text name)
        j_lem = omega (arith, length-ref_text name)

        behind : val ≡ pre ++ ref_text name ++ render l
        behind = h ∙ sym (append_assoc pre (ref_text name) (render l))

        here : j ≡ length (pre ++ ref_text name)
        here = omega (arith, length-append pre (ref_text name), length-ref_text name)

  finish_lem :
      (val : Bytes) (l : List Segment)
      → val ≡ render l
      → finish val (run val l 0 start_expansion) ≡ expansion_of l
  unfolding finish expansion_of
  finish_lem val l h = ground (
    arith,
    run_unset val l 0 start_expansion,
    run_untouched val l 0 start_expansion,
    run_text val l [] 0 start_expansion h refl,
    slice_empty val 0,
  )

-- Of a value that reads as the segments `l`, expandValue returns the contract's answer: every
-- reference to a known name is replaced by what the name stands for, every other byte and reference is
-- kept as it is written, in order, and the first known name that resolves to nothing is the error.
pub expand_value-eq-expansion_of :
    (getenv : Bytes → Bytes) (val dir : Bytes) {l : List Segment}
    → Parses val l
    → expand_value getenv val dir ≡ expansion_of getenv dir l
unfolding expand_value run
expand_value-eq-expansion_of getenv val dir {l} p =
    ap (finish val) (scan_refs-walk (substitute getenv val dir) start_expansion p)
    ∙ finish_lem getenv dir val l (sym (render-Parses p))
