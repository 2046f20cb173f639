-- ===== src/Vault/Edits.antt =====
-- `record`, `put` and `drop`: what they do to each key and to its history.
use schain.Prelude.{
  ℕ, zero, suc, ◌≤◌, ◌<◌, ◌≡◌, refl, ap, ◌∙◌, true, false, ◌||◌, none, some, inl, inr, List, ◌∷◌,
  arith, if◌then◌else◌, ◌==◌, ltb, Bool-cases, Option-cases, length, take, length-take,
}
use schain.Prelude.Text.{Bytes, str_eq, str_eq_iff, str_eq_refl}
use schain.Prelude.Dict.{Dict, lookup, lookup-insert, lookup-delete}
use schain.Vault.{
  Vault, Revision, Mark, revisions, expand_key, history_key, reserved, keep, current, push, log,
  holds, put, drop, set_expand,
}
use schain.Vault.Expanded.{lookup-set_expand, lookup-set_expand-absent}

module _ (mark : Mark) (k : Bytes) (v : Vault) where
  pub secrets-log : (log mark k v).secrets ≡ v.secrets
  unfolding log
  secrets-log = ground arith

  pub log_off : (keep v == 0 || reserved k) ≡ true → log mark k v ≡ v
  unfolding log
  log_off h = rw (h, log)

  -- The key's state goes to the front of its history; no other history changes.
  pub revisions-log :
      (j : Bytes)
      → (keep v == 0 || reserved k) ≡ false
      → revisions j (log mark k v).history ≡ (
          if str_eq k j
          then push (keep v) (current mark (lookup k v.secrets)) (revisions k v.history)
          else revisions j v.history)
  unfolding log
  revisions-log j h = ground (
    arith,
    h,
    lookup-insert k j (push (keep v) (current mark (lookup k v.secrets)) (revisions k v.history))
        v.history,
  )

-- A recorded history holds its newest revision first, and never more than the limit.
pub push_first :
    (n : ℕ) (r : Revision) (h : List Revision) → 0 < n → (t : List Revision) × (push n r h ≡ r ∷ t)
unfolding push
push_first zero r h p = absurd (omega arith)
push_first (suc n) r h p = elim (Bool-cases (ltb (suc n) (length (r ∷ h)))) [
  | inl y ↦ (take n h, ground (arith, y))
  | inr y ↦ (h, ground (arith, y))
]

pub length-push : (n : ℕ) (r : Revision) (h : List Revision) → length (push n r h) ≤ n
unfolding push
length-push n r h = ground (arith, length-take n (r ∷ h))

pub holds-lookup : (k val : Bytes) (m : Dict Bytes) → holds k val m ≡ true → lookup k m ≡ some val
holds-lookup k val m h = elim (Option-cases (lookup k m)) [
  | inl e ↦ ground (arith, e)
  | inr (cur, e) ↦ ground (arith, e, str_eq_iff cur val)
]

-- A key that is set holds the value; every other secret is as before.
pub lookup-put :
    (mark : Mark) (k val j : Bytes) (v : Vault)
    → lookup j (put mark k val v).secrets ≡ (if str_eq k j then some val else lookup j v.secrets)
unfolding put
lookup-put mark k val j v = elim (Bool-cases (holds k val v.secrets)) [
  | inl y ↦ ground (arith, y, holds-lookup k val v.secrets y, str_eq_iff k j)
  | inr n ↦ ground (
    arith,
    n,
    secrets-log mark k v,
    lookup-insert k j val (log mark k v).secrets,
    lookup-insert k j val v.secrets,
  )
]

-- A key that is dropped is gone; every other secret but the list of expanded keys is as before.
pub lookup-drop :
    (mark : Mark) (k j : Bytes) (v : Vault)
    → str_eq expand_key j ≡ false
    → lookup j (drop mark k v).secrets ≡ (if str_eq k j then none else lookup j v.secrets)
unfolding drop
lookup-drop mark k j v h = ground (
  arith,
  secrets-log mark k v,
  lookup-delete k j (set_expand k false (log mark k v)).secrets,
  lookup-set_expand k j false (log mark k v) h,
)

-- The key that is dropped is gone, whichever it is.
pub lookup-drop_same :
    (mark : Mark) (k : Bytes) (v : Vault) → lookup k (drop mark k v).secrets ≡ none
unfolding drop
lookup-drop_same mark k v =
    lookup-delete k k (set_expand k false (log mark k v)).secrets ∙ rw (str_eq_refl k)

-- A list of expanded keys that is not there is not made by a drop.
pub lookup-drop-absent :
    (mark : Mark) (k : Bytes) (v : Vault)
    → lookup expand_key v.secrets ≡ none
    → lookup expand_key (drop mark k v).secrets ≡ none
unfolding drop
lookup-drop-absent mark k v h = ground (
  arith,
  lookup-delete k expand_key (set_expand k false (log mark k v)).secrets,
  lookup-set_expand-absent k (log mark k v) (ap (lookup expand_key) (secrets-log mark k v) ∙ h),
)

pub history-put :
    (mark : Mark) (k val : Bytes) (v : Vault)
    → (put mark k val v).history
      ≡ (if holds k val v.secrets then v.history else (log mark k v).history)
unfolding put
history-put mark k val v = ground arith

pub history-drop :
    (mark : Mark) (k : Bytes) (v : Vault) → (drop mark k v).history ≡ (log mark k v).history
unfolding drop set_expand
history-drop mark k v = refl

-- The limit is a setting of its own: only a write to its key changes it.
pub keep-put :
    (mark : Mark) (k val : Bytes) (v : Vault)
    → str_eq k history_key ≡ false
    → keep (put mark k val v) ≡ keep v
unfolding keep
keep-put mark k val v h = ground (arith, lookup-put mark k val history_key v)

pub keep-drop :
    (mark : Mark) (k : Bytes) (v : Vault)
    → str_eq k history_key ≡ false
    → keep (drop mark k v) ≡ keep v
unfolding keep
keep-drop mark k v h = ground (arith, lookup-drop mark k history_key v (unfold str_eq in refl))
