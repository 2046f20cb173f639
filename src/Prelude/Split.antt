-- ===== src/Prelude/Split.antt =====
-- strings.Split and strings.Join at a separator of one byte, and their round trips.
use Prim.Native.Nat.{ℕ}
use mathlib.Core.Path.{◌≡◌, refl, ap, ◌∙◌}
use mathlib.Core.Logic.{◌≢◌}
use mathlib.Core.Bool.{true, false}
use mathlib.Core.List.{List, [], ◌∷◌, ◌++◌}
use native.Mathlib.Omega.{arith}
use schain.Prelude.Tests.{◌==◌}
use schain.Prelude.Lists.{All}
use schain.Prelude.Text.{Bytes, contains}

-- Puts a byte at the front of the first part.
unfoldable pub onto_first : ℕ → List Bytes → List Bytes
onto_first c [] = (c ∷ []) ∷ []
onto_first c (p ∷ ps) = (c ∷ p) ∷ ps

unfoldable pub split : ℕ → Bytes → List Bytes
unfolding onto_first
split sep [] = [] ∷ []
split sep (c ∷ s) = elim (c == sep) [ true ↦ [] ∷ split sep s | false ↦ onto_first c (split sep s) ]

unfoldable pub join : ℕ → List Bytes → Bytes
join sep [] = []
join sep (p ∷ []) = p
join sep (p ∷ q ∷ ps) = p ++ sep ∷ join sep (q ∷ ps)

abbrev pub Lacks : ℕ → Bytes → Type 0
Lacks sep p = contains p sep ≡ false

pub split-Lacks : (sep : ℕ) (p : Bytes) → Lacks sep p → split sep p ≡ p ∷ []
unfolding split contains
split-Lacks sep [] h = refl
split-Lacks sep (c ∷ p) h = ground (arith, split-Lacks sep p)

pub split-append :
    (sep : ℕ) (p s : Bytes) → Lacks sep p → split sep (p ++ sep ∷ s) ≡ p ∷ split sep s
unfolding split contains
split-append sep [] s h = ground arith
split-append sep (c ∷ p) s h = ground (arith, split-append sep p s)

-- Splitting a join gives the parts back, if there is one and none holds the separator.
pub split-join :
    (sep : ℕ) (ps : List Bytes) → ps ≢ [] → All (Lacks sep) ps → split sep (join sep ps) ≡ ps
unfolding join
split-join sep [] n h = absurd (n refl)
split-join sep (p ∷ []) n h = split-Lacks sep p h.0
split-join sep (p ∷ q ∷ ps) n (hp, hps) =
    split-append sep p (join sep (q ∷ ps)) hp
    ∙ ap (λ r. p ∷ r) (split-join sep (q ∷ ps) (λ e. cc) hps)

-- No part of a split holds the separator.
pub split-All-Lacks : (sep : ℕ) (s : Bytes) → All (Lacks sep) (split sep s)
unfolding split contains
split-All-Lacks sep [] = (refl, tt)
split-All-Lacks sep (c ∷ s) = lemma (split sep s) (split-All-Lacks sep s)
  where
    lemma :
        (ps : List Bytes)
        → All (Lacks sep) ps
        → All (Lacks sep) (elim (c == sep) [ true ↦ [] ∷ ps | false ↦ onto_first c ps ])
    lemma [] h = ground arith
    lemma (p ∷ ps) h = ground (arith, h)
