-- ===== src/Unset.antt =====
-- main.go: `schain unset`, from its arguments to the vault that it saves, its file and its path. The
-- search for the vault, unlocking and saving are arguments, and so is the error for a missing key.
use schain.Prelude.{
  ℕ, ltb, not, ◌≡◌, sym, ap, ◌∙◌, ◌⊎◌, true, false, none, inl, inr, List, [], ◌∷◌, arith,
  if◌then◌else◌, Bool-cases,
}
use schain.Prelude.Text.{Bytes, str_eq, str_eq_sound, member}
use schain.Prelude.Dict.{lookup, has_key}
use schain.Fail.{Fail, Result, ok, err, ◌>>=◌, usage, no_key, no_key_here, inherited_from_there}
use schain.Vault.{Vault, Mark, expand_key, drop}
use schain.Vault.Edits.{lookup-drop, lookup-drop_same, lookup-drop-absent}

-- The error for a missing key, by what inheritedFrom and the number of the vaults say.
unfoldable pub missing_key : Bytes → ℕ → Bytes → Fail
missing_key owner n k =
    if not (str_eq owner [])
    then inherited_from_there k owner
    else if ltb 1 n
    then no_key_here k
    else no_key k

unfoldable pub unset_keys : (Bytes → Fail) → Mark → List Bytes → Vault → Result Vault
unset_keys missing mark [] v = ok v
unset_keys missing mark (k ∷ ks) v = elim (has_key k v.secrets) [
  | true ↦ unset_keys missing mark ks (drop mark k v)
  | false ↦ err (missing k)
]

-- mustFindVault, unlock and save
unfoldable pub cmd_unset :
    (Bytes → Fail)
    → Mark
    → Result Bytes
    → (Bytes → Result Vault)
    → (Bytes → Vault → Result (Vault × Bytes))
    → List Bytes
    → Result (Vault × Bytes × Bytes)
unfolding unset_keys
cmd_unset missing mark found unlock store [] = err usage
cmd_unset missing mark found unlock store (k ∷ ks) = found >>= λ path. unlock path >>= λ v.
    unset_keys missing mark (k ∷ ks) v >>= λ w.
    store path w >>= λ saved. ok (saved.0, saved.1, path)

module _ (mark : Mark) (j : Bytes) where
  -- A key that is not there stays away, also the list of expanded keys, which is not made anew.
  drop-absent :
      (k : Bytes) (v : Vault) → lookup j v.secrets ≡ none → lookup j (drop mark k v).secrets ≡ none
  drop-absent k v h = elim (Bool-cases (str_eq expand_key j)) [
    | inr n ↦ ground (arith, h, lookup-drop mark k j v n)
    | inl y ↦ rw (sym (str_eq_sound expand_key j y)) (
        lookup-drop-absent mark k v
          (ap (λ i. lookup i v.secrets) (str_eq_sound expand_key j y) ∙ h))
  ]

  module _ (missing : Bytes → Fail) where
    lookup-unset_keys_absent :
        (ks : List Bytes) (v out : Vault)
        → lookup j v.secrets ≡ none
        → unset_keys missing mark ks v ≡ ok out
        → lookup j out.secrets ≡ none
    unfolding unset_keys
    lookup-unset_keys_absent [] v out h e = ground (arith, e, h)
    lookup-unset_keys_absent (k ∷ ks) v out h e = elim (Bool-cases (has_key k v.secrets)) [
      | inl y ↦
          ground (arith, y, e, drop-absent k v h, lookup-unset_keys_absent ks (drop mark k v) out)
      | inr n ↦ ground (arith, n, e)
    ]

    lookup-unset_keys_named :
        (ks : List Bytes) (v out : Vault)
        → member j ks ≡ true
        → unset_keys missing mark ks v ≡ ok out
        → lookup j out.secrets ≡ none
    unfolding unset_keys member
    lookup-unset_keys_named [] v out m e = cc
    lookup-unset_keys_named (k ∷ ks) v out m e = elim (Bool-cases (has_key k v.secrets)) [
      | inr n ↦ ground (arith, n, e)
      | inl y ↦ elim (Bool-cases (str_eq k j)) [
        | inl s ↦
            let gone = lookup-drop_same mark j v in
            let same = ap (λ i. lookup j (drop mark i v).secrets) (str_eq_sound k j s) in
            ground (arith, y, e, gone, same, lookup-unset_keys_absent ks (drop mark k v) out)
        | inr n ↦ ground (arith, y, n, m, e, lookup-unset_keys_named ks (drop mark k v) out)
      ]
    ]

    lookup-unset_keys_other :
        (ks : List Bytes) (v out : Vault)
        → str_eq expand_key j ≡ false
        → unset_keys missing mark ks v ≡ ok out
        → lookup j out.secrets ≡ (if member j ks then none else lookup j v.secrets)
    unfolding unset_keys member
    lookup-unset_keys_other [] v out h e = ground (arith, e)
    lookup-unset_keys_other (k ∷ ks) v out h e = elim (Bool-cases (has_key k v.secrets)) [
      | inl y ↦
          ground (
            arith,
            y,
            e,
            lookup-drop mark k j v h,
            lookup-unset_keys_other ks (drop mark k v) out h,
          )
      | inr n ↦ ground (arith, n, e)
    ]

    -- When `schain unset` gets through its arguments, every key that they name is gone, the list of
    -- expanded keys too if it is named, and any other secret but that list is as it was.
    pub lookup-unset_keys :
        (ks : List Bytes) (v out : Vault)
        → (member j ks ≡ true) ⊎ (str_eq expand_key j ≡ false)
        → unset_keys missing mark ks v ≡ ok out
        → lookup j out.secrets ≡ (if member j ks then none else lookup j v.secrets)
    lookup-unset_keys ks v out (inl m) e = rw m (lookup-unset_keys_named ks v out m e)
    lookup-unset_keys ks v out (inr h) e = lookup-unset_keys_other ks v out h e
