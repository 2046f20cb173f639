-- ===== src/Expand/Segments.antt =====
-- How a value of expand.go reads: plain bytes and references, as a grammar and as a function.
use schain.Prelude.{
  ℕ, zero, suc, ◌≤◌, ◌<◌, ◌≡◌, refl, sym, ap, ◌∙◌, Bool, true, false, ◌&&◌, none, some, inl, inr,
  List, [], ◌∷◌, ◌++◌, map, arith, ◌==◌, length, length-append, Bool-cases, Option-cases,
  append_assoc,
}
use schain.Prelude.Text.{
  Bytes, contains, cut_byte, cut_byte_sound, cut_byte-append, cut_byte-none, contains-cut_byte-none,
}
use schain.Expand.{dollar, open_brace, close_brace, ref_text}

pub data Segment : Type 0 where
  lit : ℕ → Segment
  ref : Bytes → Segment

-- A complete reference stands at the front.
unfoldable pub opens : Bytes → Bool
opens [] = false
opens (a ∷ []) = false
opens (a ∷ b ∷ t) = a == dollar && b == open_brace && contains t close_brace

-- The grammar: a reference wherever one can be read, leftmost first; its name ends at the first `}`.
pub data Parses : Bytes → List Segment → Type 0 where
  done : Parses [] []
  plain :
      (c : ℕ) {s : Bytes} {l : List Segment}
      → opens (c ∷ s) ≡ false
      → Parses s l
      → Parses (c ∷ s) (lit c ∷ l)
  refer :
      (name : Bytes) {s val : Bytes} {l : List Segment}
      → contains name close_brace ≡ false
      → val ≡ ref_text name ++ s
      → Parses s l
      → Parses val (ref name ∷ l)

unfoldable pub segments : ℕ → Bytes → List Segment
segments zero rest = map lit rest
segments (suc f) [] = []
segments (suc f) (a ∷ []) = lit a ∷ []
segments (suc f) (a ∷ b ∷ t) = elim (a == dollar && b == open_brace) [
  | false ↦ lit a ∷ segments f (b ∷ t)
  | true ↦ elim (cut_byte t close_brace) [
    | none ↦ lit a ∷ lit b ∷ map lit t
    | some (name, after) ↦ ref name ∷ segments f after
  ]
]

unfoldable pub render : List Segment → Bytes
render [] = []
render (lit c ∷ l) = c ∷ render l
render (ref name ∷ l) = ref_text name ++ render l

render-map_lit : (s : Bytes) → render (map lit s) ≡ s
unfolding render
render-map_lit [] = refl
render-map_lit (c ∷ s) = ap (λ r. c ∷ r) (render-map_lit s)

pub ref_text-append :
    (name s : Bytes) → ref_text name ++ s ≡ dollar ∷ open_brace ∷ name ++ close_brace ∷ s
ref_text-append name s = ap (λ r. dollar ∷ open_brace ∷ r) (append_assoc name (close_brace ∷ []) s)

-- A parsed text is spelled by its segments.
pub render-Parses : {s : Bytes} {l : List Segment} → Parses s l → render l ≡ s
unfolding render
render-Parses done = refl
render-Parses (plain c n p) = ap (λ r. c ∷ r) (render-Parses p)
render-Parses (refer name n e p) = ap (λ r. ref_text name ++ r) (render-Parses p) ∙ sym e

segments_no_close : (f : ℕ) (s : Bytes) → contains s close_brace ≡ false → segments f s ≡ map lit s
unfolding segments contains
segments_no_close zero s h = refl
segments_no_close (suc f) [] h = refl
segments_no_close (suc f) (a ∷ []) h = refl
segments_no_close (suc f) (a ∷ b ∷ t) h =
    ground (arith, cut_byte-none t close_brace, segments_no_close f (b ∷ t))

-- One round of the function, for each way that it can go.
module _ (f a b : ℕ) (t : Bytes) where
  pub segments_plain :
      (a == dollar && b == open_brace) ≡ false
      → segments (suc f) (a ∷ b ∷ t) ≡ lit a ∷ segments f (b ∷ t)
  unfolding segments
  segments_plain n = ground (arith, n)

  pub segments_open :
      (a == dollar && b == open_brace) ≡ true
      → cut_byte t close_brace ≡ none
      → segments (suc f) (a ∷ b ∷ t) ≡ lit a ∷ lit b ∷ map lit t
  unfolding segments
  segments_open y e = ground (arith, y, e)

  pub segments_ref :
      (q : Bytes × Bytes)
      → (a == dollar && b == open_brace) ≡ true
      → cut_byte t close_brace ≡ some q
      → segments (suc f) (a ∷ b ∷ t) ≡ ref q.0 ∷ segments f q.1
  unfolding segments
  segments_ref q y e = ground (arith, y, e)

-- The function finds every reading of the grammar, so there is one at most.
pub segments-Parses :
    (f : ℕ) {s : Bytes} {l : List Segment} → length s ≤ f → Parses s l → segments f s ≡ l
unfolding segments opens contains
segments-Parses zero h done = refl
segments-Parses (suc f) h done = refl
segments-Parses zero h (plain c n p) = absurd (omega arith)
segments-Parses (suc f) h (plain c {s = []} n p) =
    ap (λ r. lit c ∷ r) (segments_nil f ∙ segments-Parses f (omega arith) p)
  where
    segments_nil : (g : ℕ) → [] ≡ segments g []
    segments_nil zero = refl
    segments_nil (suc g) = refl
segments-Parses (suc f) h (plain c {s = b ∷ t} n p) = ground (
  arith,
  n,
  cut_byte-none t close_brace,
  segments_no_close f (b ∷ t),
  segments-Parses f (omega arith) p,
)
segments-Parses zero h (refer name e n p) = absurd (omega (arith, ap length n))
segments-Parses (suc f) {s = val} h (refer name {s} n e p) = rw (e ∙ ref_text-append name s) (
    segments_ref f dollar open_brace (name ++ close_brace ∷ s) (name, s) refl
      (cut_byte-append name s close_brace n)
    ∙ ap (λ r. ref name ∷ r) (segments-Parses f short p))
  where
    short : length s ≤ f
    short =
        omega (arith, ap length (e ∙ ref_text-append name s), length-append name (close_brace ∷ s))

opens_no_close : (c : ℕ) (s : Bytes) → contains (c ∷ s) close_brace ≡ false → opens (c ∷ s) ≡ false
unfolding opens contains
opens_no_close c [] h = refl
opens_no_close c (b ∷ t) h = ground arith

Parses_no_close : (s : Bytes) → contains s close_brace ≡ false → Parses s (map lit s)
Parses_no_close [] h = done
Parses_no_close (c ∷ s) h =
    plain c (opens_no_close c s h) (Parses_no_close s (unfold contains in tail_lacks c s h))
  where
    tail_lacks :
        (x : ℕ) (t : Bytes) → contains (x ∷ t) close_brace ≡ false → contains t close_brace ≡ false
    tail_lacks x t k = unfold contains in ground arith

module _ (f a b : ℕ) (t : Bytes) (ih : (s : Bytes) → length s ≤ f → Parses s (segments f s)) where
  Parses_open :
      length t < f
      → (a == dollar && b == open_brace) ≡ true
      → Parses (a ∷ b ∷ t) (segments (suc f) (a ∷ b ∷ t))
  Parses_open h y = elim (Option-cases (cut_byte t close_brace)) [
    | inl e ↦ rw (segments_open f a b t y e) (Parses_no_close (a ∷ b ∷ t) (lacks e))
    | inr (q, e) ↦ rw (segments_ref f a b t q y e) (
        refer q.0 (cut_byte_sound t close_brace q e).1
          (spells q (cut_byte_sound t close_brace q e).0)
          (ih q.1 (shorter q (cut_byte_sound t close_brace q e).0)))
  ]
    where
      lacks : cut_byte t close_brace ≡ none → contains (a ∷ b ∷ t) close_brace ≡ false
      lacks e = unfold contains in ground (arith, contains-cut_byte-none t close_brace e)

      spells : (q : Bytes × Bytes) → t ≡ q.0 ++ close_brace ∷ q.1 → a ∷ b ∷ t ≡ ref_text q.0 ++ q.1
      spells q e = ground (arith, ref_text-append q.0 q.1)

      shorter : (q : Bytes × Bytes) → t ≡ q.0 ++ close_brace ∷ q.1 → length q.1 ≤ f
      shorter q e = omega (arith, ap length e, length-append q.0 (close_brace ∷ q.1))

  Parses_plain :
      length t < f
      → (a == dollar && b == open_brace) ≡ false
      → Parses (a ∷ b ∷ t) (segments (suc f) (a ∷ b ∷ t))
  Parses_plain h n = rw (segments_plain f a b t n) (plain a not_open (ih (b ∷ t) h))
    where
      not_open : opens (a ∷ b ∷ t) ≡ false
      not_open = unfold opens in ground (arith, n)

-- Every text has a reading: the one that the function finds with the text's length for fuel.
pub Parses-segments : (f : ℕ) (s : Bytes) → length s ≤ f → Parses s (segments f s)
unfolding segments
Parses-segments zero [] h = done
Parses-segments zero (a ∷ s) h = absurd (omega arith)
Parses-segments (suc f) [] h = done
Parses-segments (suc f) (a ∷ []) h = plain a (opens_one a) done
  where
    opens_one : (c : ℕ) → opens (c ∷ []) ≡ false
    opens_one c = unfold opens in refl
Parses-segments (suc f) (a ∷ b ∷ t) h = elim (Bool-cases (a == dollar && b == open_brace)) [
  | inl y ↦ Parses_open f a b t (Parses-segments f) (omega arith) y
  | inr n ↦ Parses_plain f a b t (Parses-segments f) (omega arith) n
]
