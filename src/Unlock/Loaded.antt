-- ===== src/Unlock/Loaded.antt =====
-- Which vaults `loadChain` loads, and in which order.
use schain.Prelude.{
  suc, ◌+◌, ◌≡◌, ◌⊎◌, refl, ap, ◌∙◌, Bool, true, false, inl, inr, List, [], ◌∷◌, ◌++◌, arith,
  length, Bool-cases,
}
use schain.Prelude.Text.{Bytes, str_eq}
use schain.Fail.{ok, Result-cases}
use schain.Vault.{Vault, root_key, text_at}
use schain.Chain.{Chain, rev_onto, reversed, first, rest_of}
use schain.Unlock.{Doors, Answers, unlock_known, put_first, load_from, load_chain}

abbrev pub SetsRoot : Vault → Type 0
SetsRoot v = str_eq (text_at root_key v.secrets) [] ≡ false

-- The root-most vault sets SCHAIN_ROOT.
abbrev pub EndsAtRoot : List Vault → Type 0
EndsAtRoot [] = ⊥
EndsAtRoot (v ∷ vs) = SetsRoot v

module _ (d : Doors) where
  -- What was taken of the paths: the rest is left only behind a vault that sets SCHAIN_ROOT.
  abbrev Taken : List Bytes → Chain → Chain → Type 0
  Taken ps c₀ c =
      (used : List Bytes) × (rest : List Bytes) × (ps ≡ used ++ rest)
      × (c.paths ≡ rev_onto used c₀.paths)
      × (length c.vaults ≡ length used + length c₀.vaults)
      × ((rest ≡ []) ⊎ EndsAtRoot c.vaults)

  load_from-Taken :
      (above : Bool) (ps ds known : List Bytes) (answers : Answers) (c₀ c : Chain)
      → load_from d above ps ds known answers c₀ ≡ ok c
      → Taken ps c₀ c
  unfolding load_from rev_onto
  load_from-Taken above [] ds known answers c₀ c h =
      ([], [], refl, ground (arith, h), ground (arith, h), inl refl)
  load_from-Taken above (p ∷ ps) ds known answers c₀ c h =
      let u = unlock_known d p known answers in
      elim (Result-cases u.result) [
        | inl (e, q) ↦ absurd (ground (arith, h, q))
        | inr (v, q) ↦
            let c' = put_first v p (first ds) c₀ in
            elim (Bool-cases (str_eq (text_at root_key v.secrets) [])) [
              | inr top ↦
                  let same : c' ≡ c = ground (arith, h, q, top) in
                  rw (← same) (
                    p ∷ [],
                    ps,
                    refl,
                    unfold put_first in refl,
                    unfold put_first in omega arith,
                    inr (unfold put_first in top),
                  )
              | inl more ↦
                  let (used, rest, e₁, e₂, e₃, e₄) =
                    load_from-Taken true ps (rest_of ds) u.known u.answers c' c
                      (ground (arith, h, q, more)) in
                  (
                    p ∷ used,
                    rest,
                    ap (λ l. p ∷ l) e₁,
                    e₂ ∙ pushed used v,
                    omega (arith, e₃, grown v),
                    e₄,
                  )
            ]
      ]
    where
      pushed :
          (used : List Bytes) (v : Vault)
          → rev_onto used (put_first v p (first ds) c₀).paths ≡ rev_onto (p ∷ used) c₀.paths
      pushed used v = unfold put_first in refl

      grown : (v : Vault) → length (put_first v p (first ds) c₀).vaults ≡ suc (length c₀.vaults)
      grown v = unfold put_first in refl

-- A chain that loads has the nearest paths it was given, without a gap, in the order root-most first,
-- with one vault for each; a path is left out only above a vault that sets SCHAIN_ROOT.
pub load_chain_lem :
    (d : Doors) (paths dirs : List Bytes) (answers : Answers) (c : Chain)
    → load_chain d paths dirs answers ≡ ok c
    → (used : List Bytes) × (rest : List Bytes) × (paths ≡ used ++ rest)
      × (c.paths ≡ reversed used)
      × (length c.vaults ≡ length used)
      × ((rest ≡ []) ⊎ EndsAtRoot c.vaults)
unfolding load_chain reversed
load_chain_lem d paths dirs answers c h =
    let start : Chain = record { vaults = []; paths = []; dirs = [] } in
    let (used, rest, e₁, e₂, e₃, e₄) = load_from-Taken d false paths dirs [] answers start c h in
    (used, rest, e₁, e₂, omega (arith, e₃), e₄)
