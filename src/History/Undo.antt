-- ===== src/History/Undo.antt =====
-- A change can be taken back: `revert` with step 1 restores what a key was.
use schain.Prelude.{
  ℕ, ◌-◌, ◌<◌, ◌≡◌, ap, ◌∙◌, true, false, Option, none, some, inl, inr, List, ◌∷◌, arith,
  Bool-cases, Option-cases, get_elem?,
}
use schain.Prelude.Text.{Bytes, str_eq, str_eq_iff, str_eq_refl}
use schain.Prelude.Dict.{lookup, has_key, delete, lookup-delete}
use schain.Fail.{ok}
use schain.Vault.{
  Vault, Revision, Mark, revisions, expand_key, reserved, keep, current, log, holds, put, drop,
}
use schain.Vault.Edits.{
  revisions-log, push_first, lookup-put, lookup-drop, history-put, history-drop,
}
use schain.History.{revert_to, revert_from, revert_at}

-- Nothing but the list of expanded keys may differ.
abbrev pub SameSecrets : Vault → Vault → Type 0
SameSecrets w v =
    (j : Bytes) → lookup j (delete expand_key w.secrets) ≡ lookup j (delete expand_key v.secrets)

SameSecrets-intro :
    (w v : Vault)
    → ((j : Bytes) → str_eq expand_key j ≡ false → lookup j w.secrets ≡ lookup j v.secrets)
    → SameSecrets w v
SameSecrets-intro w v h j = elim (Bool-cases (str_eq expand_key j)) [
  | inl y ↦
      ground (arith, y, lookup-delete expand_key j w.secrets, lookup-delete expand_key j v.secrets)
  | inr n ↦
      ground (
        arith,
        n,
        h j n,
        lookup-delete expand_key j w.secrets,
        lookup-delete expand_key j v.secrets,
      )
]

revert_from_first :
    (mark : Mark) (k : Bytes) (r : Revision) (t : List Revision) (w : Vault)
    → revert_from mark k 1 (r ∷ t) w ≡ revert_to mark k r w
unfolding revert_from
revert_from_first mark k r t w = ground arith

revert_at_first :
    (mark : Mark) (k : Bytes) (r : Revision) (t : List Revision) (w : Vault)
    → revisions k w.history ≡ r ∷ t
    → revert_at mark k 1 w ≡ revert_to mark k r w
unfolding revert_at
revert_at_first mark k r t w e =
    ap (λ l. revert_from mark k 1 l w) e ∙ revert_from_first mark k r t w

module _ (mark mark' : Mark) (k : Bytes) (w : Vault) where
  restore_value :
      (old : Bytes)
      → holds k old w.secrets ≡ false
      → revert_to mark' k (current mark (some old)) w ≡ ok (some (put mark' k old w))
  unfolding revert_to current
  restore_value old h = rw (h, revert_to)

  restore_absence :
      has_key k w.secrets ≡ true
      → revert_to mark' k (current mark none) w ≡ ok (some (drop mark' k w))
  unfolding revert_to current
  restore_absence h = rw (h, revert_to)

module _ (mark : Mark) (k : Bytes) (v : Vault) (on : 0 < keep v) (free : reserved k ≡ false) where
  logged :
      (t : List Revision) × (revisions k (log mark k v).history
        ≡ current mark (lookup k v.secrets) ∷ t)
  logged =
      let (t, e) =
        push_first (keep v) (current mark (lookup k v.secrets)) (revisions k v.history) on in
      (t, revisions-log mark k v k (ground arith) ∙ rw (str_eq_refl k) e)

  back_one :
      (mark' : Mark) (o : Option Bytes) (u : Vault)
      → lookup k v.secrets ≡ o
      → u.history ≡ (log mark k v).history
      → revert_at mark' k 1 u ≡ revert_to mark' k (current mark o) u
  back_one mark' o u e h =
      let (t, l) = logged in
      revert_at_first mark' k (current mark o) t u (ap (λ d. revisions k d) h ∙ l ∙ rw e)

  -- Reverting by one step after a `put` that changes the key brings back what the key was: its
  -- value, or its absence. No other secret differs, the list of expanded keys apart. The key must not
  -- be reserved, and the vault must keep history.
  pub put-revert_at :
      (mark' : Mark) (val : Bytes)
      → holds k val v.secrets ≡ false
      → (w : Vault) × (revert_at mark' k 1 (put mark k val v) ≡ ok (some w)) × SameSecrets w v
  put-revert_at mark' val new = elim (Option-cases (lookup k v.secrets)) [
    | inl e ↦ (
      drop mark' k u,
      back_one mark' none u e h
          ∙ restore_absence mark mark' k u (unfold has_key in ground (arith, there)),
      SameSecrets-intro (drop mark' k u) v λ j n.
          ground (arith, e, lookup-drop mark' k j u n, lookup-put mark k val j v, str_eq_iff k j),
    )
    | inr (old, e) ↦ (
      put mark' k old u,
      back_one mark' (some old) u e h
          ∙ restore_value mark mark' k u old
              (ground (arith, there, e, new, str_eq_iff old val, str_eq_iff val old)),
      SameSecrets-intro (put mark' k old u) v λ j n.
          ground (arith, e, lookup-put mark' k old j u, lookup-put mark k val j v, str_eq_iff k j),
    )
  ]
    where
      u : Vault
      u = put mark k val v

      h : u.history ≡ (log mark k v).history
      h = history-put mark k val v ∙ rw new

      there : lookup k u.secrets ≡ some val
      there = lookup-put mark k val k v ∙ rw (str_eq_refl k)

  -- Reverting by one step after a `drop` of a key that is there brings its value back.
  pub drop-revert_at :
      (mark' : Mark)
      → has_key k v.secrets ≡ true
      → (w : Vault) × (revert_at mark' k 1 (drop mark k v) ≡ ok (some w)) × SameSecrets w v
  drop-revert_at mark' live = elim (Option-cases (lookup k v.secrets)) [
    | inl e ↦ absurd (unfold has_key in ground (arith, e, live))
    | inr (old, e) ↦ (
      put mark' k old u,
      back_one mark' (some old) u e (history-drop mark k v)
          ∙ restore_value mark mark' k u old (ground (arith, away)),
      SameSecrets-intro (put mark' k old u) v λ j n.
          ground (arith, e, lookup-put mark' k old j u, lookup-drop mark k j v n, str_eq_iff k j),
    )
  ]
    where
      u : Vault
      u = drop mark k v

      away : lookup k u.secrets ≡ none
      away =
          lookup-drop mark k k v (
            unfold reserved in
            ground (arith, free, str_eq_iff expand_key k, str_eq_iff k expand_key))
          ∙ rw (str_eq_refl k)

-- What a revert that writes has done.
data Reverted (mark : Mark) (k : Bytes) (v w : Vault) : Type 0 where
  removed : has_key k v.secrets ≡ true → w ≡ drop mark k v → Reverted mark k v w
  restored :
      (val : Bytes) → holds k val v.secrets ≡ false → w ≡ put mark k val v → Reverted mark k v w

revert_to_inv :
    (mark : Mark) (k : Bytes) (r : Revision) (v w : Vault)
    → revert_to mark k r v ≡ ok (some w)
    → Reverted mark k v w
unfolding revert_to
revert_to_inv mark k r v w h = elim (Bool-cases r.gone) [
  | inl g ↦ elim (Bool-cases (has_key k v.secrets)) [
    | inl l ↦ removed l (ground (arith, g, l, h))
    | inr l ↦ absurd (ground (arith, g, l, h))
  ]
  | inr g ↦ elim (Bool-cases (holds k r.val v.secrets)) [
    | inl s ↦ absurd (ground (arith, g, s, h))
    | inr n ↦ restored r.val n (ground (arith, g, n, h))
  ]
]

revert_from_inv :
    (mark : Mark) (k : Bytes) (back : ℕ) (revs : List Revision) (v w : Vault)
    → revert_from mark k back revs v ≡ ok (some w)
    → (r : Revision) × (revert_to mark k r v ≡ ok (some w))
unfolding revert_from
revert_from_inv mark k back revs v w h = elim (Option-cases (get_elem? revs (back - 1))) [
  | inl e ↦ absurd (ground (arith, e, h))
  | inr (r, e) ↦ (r, ground (arith, e, h))
]

revert_at_inv :
    (mark : Mark) (k : Bytes) (back : ℕ) (v w : Vault)
    → revert_at mark k back v ≡ ok (some w)
    → Reverted mark k v w
unfolding revert_at
revert_at_inv mark k back v w h =
    let (r, e) = revert_from_inv mark k back (revisions k v.history) v w h in
    revert_to_inv mark k r v w e

-- A revert is an ordinary change: after any revert that wrote the vault, a revert by one step brings
-- every secret back to what it was, the list of expanded keys apart. The key must not be reserved,
-- and the vault must keep history.
pub revert_at-revert_at :
    (mark mark' : Mark) (k : Bytes) (back : ℕ) (v w : Vault)
    → 0 < keep v
    → reserved k ≡ false
    → revert_at mark k back v ≡ ok (some w)
    → (u : Vault) × (revert_at mark' k 1 w ≡ ok (some u)) × SameSecrets u v
revert_at-revert_at mark mark' k back v w on free h = elim (revert_at_inv mark k back v w h) [
  | removed l d ↦ rw d (drop-revert_at mark k v on free mark' l)
  | restored val n p ↦ rw p (put-revert_at mark k v on free mark' val n)
]
