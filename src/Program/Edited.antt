-- ===== src/Program/Edited.antt =====
-- main.go: the edits of every command keep the digest of the file that the vault was opened from.
use schain.Prelude.{
  ℕ, ◌-◌, get_elem?, true, false, ◌≡◌, refl, ◌∙◌, ◌||◌, Bool, Option, some, inl, inr, List, [], ◌∷◌,
  arith, Bool-cases, Option-cases,
}
use schain.Prelude.Text.{Bytes}
use schain.Prelude.Number.{atoi}
use schain.Prelude.Dict.{has_key}
use schain.Fail.{Fail, Result, ok, err, ◌>>=◌, >>=-ok, Result-cases}
use schain.Vault.{Vault, Mark, Revision, default_history, revisions, put, drop}
use schain.Vault.Stamps.{put-stamp, drop-stamp, set_expand-stamp}
use schain.Unlock.{Answers, prompt}
use schain.Assign.{SetFlags, key_value, set_key, set_keys, vet_typed}
use schain.Unset.{unset_keys}
use schain.History.{
  revert_to, revert_from, revert_at, history_revert, positive, switch_to, history_switch,
  purge_keys, history_purge,
}

module _ (mark : Mark) where
  set_key-stamp :
      (f : SetFlags) (k val : Bytes) (v : Vault) → (set_key mark f k val v).stamp ≡ v.stamp
  unfolding set_key
  set_key-stamp f k val v = elim (Bool-cases (f.expand || f.literal)) [
    | inl y ↦
        ground (arith, y, set_expand-stamp k f.expand (put mark k val v), put-stamp mark k val v)
    | inr n ↦ ground (arith, n, put-stamp mark k val v)
  ]

  pub unset_keys-stamp :
      (missing : Bytes → Fail) (ks : List Bytes) (v w : Vault)
      → unset_keys missing mark ks v ≡ ok w
      → w.stamp ≡ v.stamp
  unfolding unset_keys
  unset_keys-stamp missing [] v w e = ground (arith, e)
  unset_keys-stamp missing (k ∷ ks) v w e = elim (Bool-cases (has_key k v.secrets)) [
    | inr n ↦ absurd (ground (arith, n, e))
    | inl y ↦
        let rest = unset_keys-stamp missing ks (drop mark k v) w in
        ground (arith, y, e, rest, drop-stamp mark k v)
  ]

  pub set_keys-stamp :
      (getenv : Bytes → Bytes) (f : SetFlags) (args : List Bytes) (answers : Answers) (v : Vault)
      (r : Vault × Answers)
      → set_keys getenv mark f args answers v ≡ ok r
      → r.0.stamp ≡ v.stamp
  unfolding set_keys
  set_keys-stamp getenv f [] answers v r e = ground (arith, e)
  set_keys-stamp getenv f (arg ∷ args) answers v r e =
      let k = (key_value arg).0 in
      elim (Option-cases (key_value arg).1) [
        | inr (val, q) ↦
            let e' : set_keys getenv mark f args answers (set_key mark f k val v) ≡ ok r =
              rw (set_keys, q) at e in
            set_keys-stamp getenv f args answers (set_key mark f k val v) r e'
            ∙ set_key-stamp f k val v
        | inl q ↦ elim (Result-cases (prompt answers).0) [
          | inl (x, t) ↦ cc (rw (set_keys, q, t) at e)
          | inr (val, t) ↦ elim (Result-cases (vet_typed getenv f.expand k val)) [
            | inl (x, u) ↦ cc (rw (set_keys, q, t, u) at e)
            | inr (o, u) ↦
                let e' : set_keys getenv mark f args (prompt answers).1 (set_key mark f k val v)
                    ≡ ok r =
                  rw (set_keys, q, t, u) at e in
                set_keys-stamp getenv f args (prompt answers).1 (set_key mark f k val v) r e'
                ∙ set_key-stamp f k val v
          ]
        ]
      ]

  -- A history command keeps the digest of the vault that was opened for it.
  abbrev pub Keeps : (Result Vault → Result (Option Vault)) → Type 0
  Keeps change =
      (opened : Result Vault) (w : Vault)
      → change opened ≡ ok (some w)
      → (v : Vault) × (opened ≡ ok v) × (w.stamp ≡ v.stamp)

  revert_to-stamp :
      (key : Bytes) (target : Revision) (v w : Vault)
      → revert_to mark key target v ≡ ok (some w)
      → w.stamp ≡ v.stamp
  unfolding revert_to
  revert_to-stamp key target v w e =
      ground (arith, e, drop-stamp mark key v, put-stamp mark key target.val v)

  revert_at-stamp :
      (key : Bytes) (back : ℕ) (v w : Vault)
      → revert_at mark key back v ≡ ok (some w)
      → w.stamp ≡ v.stamp
  unfolding revert_at revert_from
  revert_at-stamp key back v w e =
      elim (Option-cases (get_elem? (revisions key v.history) (back - 1))) [
        | inl n ↦ absurd (ground (arith, n, e))
        | inr (target, q) ↦ revert_to-stamp key target v w (ground (arith, q, e))
      ]

  pub history_revert-Keeps : (args : List Bytes) → Keeps (λ opened. history_revert mark opened args)
  unfolding history_revert
  history_revert-Keeps [] opened w e = cc
  history_revert-Keeps (key ∷ []) opened w e =
      let (v, o, r) = >>=-ok opened (revert_at mark key 1) e in (v, o, revert_at-stamp key 1 v w r)
  history_revert-Keeps (key ∷ n ∷ []) opened w e = elim (Option-cases (positive (atoi n))) [
    | inl q ↦ cc (rw (history_revert, q) at e)
    | inr (back, q) ↦
        let (v, o, r) = >>=-ok opened (revert_at mark key back) (rw (history_revert, q) at e) in
        (v, o, revert_at-stamp key back v w r)
  ]
  history_revert-Keeps (key ∷ n ∷ x ∷ rest) opened w e = cc

  switched : (n : ℕ) → Keeps (λ opened. opened >>= λ v. ok (some (switch_to n v)))
  unfolding switch_to
  switched n (err x) w e = cc
  switched n (ok v) w e = (v, refl, ground (arith, e))

  pub history_switch-Keeps :
      (off : Bool) (args : List Bytes) → Keeps (λ opened. history_switch off opened args)
  unfolding history_switch
  history_switch-Keeps true [] opened w e = switched 0 opened w e
  history_switch-Keeps true (x ∷ rest) opened w e = cc
  history_switch-Keeps false [] opened w e = switched default_history opened w e
  history_switch-Keeps false (n ∷ []) opened w e = elim (Option-cases (positive (atoi n))) [
    | inl q ↦ cc (rw (history_switch, q) at e)
    | inr (got, q) ↦ switched got opened w (rw (history_switch, q) at e)
  ]
  history_switch-Keeps false (n ∷ x ∷ rest) opened w e = cc

  pub history_purge-Keeps : (args : List Bytes) → Keeps (λ opened. history_purge opened args)
  unfolding history_purge
  history_purge-Keeps [] (err x) w e = cc
  history_purge-Keeps [] (ok v) w e = (v, refl, ground (arith, e))
  history_purge-Keeps (k ∷ ks) (err x) w e = cc
  history_purge-Keeps (k ∷ ks) (ok v) w e = elim (Result-cases (purge_keys (k ∷ ks) v.history)) [
    | inl (x, q) ↦ absurd (ground (arith, q, e))
    | inr (m, q) ↦ (v, refl, ground (arith, q, e))
  ]
