-- ===== src/Unlock/Nearest.antt =====
-- chain.go: the last vault of a chain that loadChain loads is the nearest one.
use schain.Prelude.{
  ◌≡◌, refl, sym, ap, ◌∙◌, Bool, true, false, none, inl, inr, List, [], ◌∷◌, ◌++◌, arith,
  append_assoc, Bool-cases,
}
use schain.Prelude.Text.{Bytes, str_eq}
use schain.Fail.{ok, Result-cases}
use schain.Vault.{Vault, root_key, text_at}
use schain.Chain.{Chain, first, rest_of}
use schain.Unlock.{
  Doors, Answers, unlock_known, put_first, load_from, load_chain, prompt, after_prompt,
  by_passphrase, try_known,
}

module _ (d : Doors) where
  load_from-behind :
      (above : Bool) (ps ds known : List Bytes) (answers : Answers) (c₀ c : Chain)
      → load_from d above ps ds known answers c₀ ≡ ok c
      → (vs : List Vault) × (c.vaults ≡ vs ++ c₀.vaults)
  unfolding load_from
  load_from-behind above [] ds known answers c₀ c h = ([], ground (arith, h))
  load_from-behind above (p ∷ ps) ds known answers c₀ c h =
      let u = unlock_known d p known answers in
      elim (Result-cases u.result) [
        | inl (e, q) ↦ absurd (ground (arith, h, q))
        | inr (v, q) ↦
            let c' = put_first v p (first ds) c₀ in
            let grown : c'.vaults ≡ v ∷ c₀.vaults = unfold put_first in refl in
            elim (Bool-cases (str_eq (text_at root_key v.secrets) [])) [
              | inr top ↦
                  let same : c' ≡ c = ground (arith, h, q, top) in
                  (v ∷ [], sym (ap (λ k. k.vaults) same) ∙ grown)
              | inl more ↦
                  let (vs, e) =
                    load_from-behind true ps (rest_of ds) u.known u.answers c' c
                      (ground (arith, h, q, more)) in
                  (
                    vs ++ v ∷ [],
                    e ∙ ap (λ l. vs ++ l) grown ∙ sym (append_assoc vs (v ∷ []) c₀.vaults),
                  )
            ]
      ]

  -- The last vault is the one that opens at the first path, before any passphrase is known.
  pub load_chain-nearest :
      (p : Bytes) (ps dirs : List Bytes) (answers : Answers) (v : Vault) (c : Chain)
      → (unlock_known d p [] answers).result ≡ ok v
      → load_chain d (p ∷ ps) dirs answers ≡ ok c
      → (vs : List Vault) × (c.vaults ≡ vs ++ v ∷ [])
  unfolding load_chain load_from
  load_chain-nearest p ps dirs answers v c q h =
      let u = unlock_known d p [] answers in
      let c' = put_first v p (first dirs) (record { vaults = []; paths = []; dirs = [] }) in
      let grown : c'.vaults ≡ v ∷ [] = unfold put_first in refl in
      elim (Bool-cases (str_eq (text_at root_key v.secrets) [])) [
        | inr top ↦
            let same : c' ≡ c = ground (arith, h, q, top) in
            ([], sym (ap (λ k. k.vaults) same) ∙ grown)
        | inl more ↦
            let (vs, e) =
              load_from-behind true ps (rest_of dirs) u.known u.answers c' c
                (ground (arith, h, q, more)) in
            (vs, e ∙ ap (λ l. vs ++ l) grown)
      ]

  -- A vault that nothing remembers opens with the passphrase that is typed.
  pub unlock_known-typed :
      (p pass : Bytes) (rest : Answers) (v : Vault)
      → d.open_cached p ≡ none
      → d.has_source ≡ false
      → d.open_vault p pass ≡ ok v
      → (unlock_known d p [] (ok pass ∷ rest)).result ≡ ok v
  unfolding unlock_known by_passphrase prompt after_prompt try_known
  unlock_known-typed p pass rest v c s o = rw (unlock_known, c, s, o) refl
