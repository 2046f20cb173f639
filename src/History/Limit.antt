-- ===== src/History/Limit.antt =====
-- The limit on kept values, and that no stored history is empty.
use schain.Prelude.{
  ℕ, zero, suc, ◌≤◌, ◌<◌, ◌≡◌, refl, true, false, ◌||◌, none, some, inl, inr, List, [], ◌∷◌, arith,
  if◌then◌else◌, ◌==◌, ltb, leb, Bool-cases, length, take, length-take, take_all,
}
use schain.Prelude.Text.{Bytes, str_eq, str_eq_refl}
use schain.Prelude.Dict.{Dict, lookup, lookup-insert, lookup-delete}
use schain.Prelude.Number.{max_int, itoa, atoi-itoa}
use schain.Vault.{
  Vault, Revision, Mark, revisions, history_key, default_history, reserved, keep, current, log,
  holds, put, drop,
}
use schain.Vault.Edits.{
  revisions-log, log_off, length-push, keep-put, keep-drop, history-put, history-drop,
}
use schain.History.{trim, switch_to}

-- No key holds more past values than the vault keeps; with history off nothing is said.
abbrev pub IsTrimmed : Vault → Type 0
IsTrimmed v = (j : Bytes) → (keep v == 0 || leb (length (revisions j v.history)) (keep v)) ≡ true

IsTrimmed-intro :
    (v : Vault) → ((j : Bytes) → 0 < keep v → length (revisions j v.history) ≤ keep v) → IsTrimmed v
IsTrimmed-intro v h j = elim (Bool-cases (keep v == 0)) [
  | inl z ↦ ground (arith, z)
  | inr s ↦ ground (arith, h j (ground (arith, s)))
]

IsTrimmed-bound :
    (v : Vault) (j : Bytes) → IsTrimmed v → 0 < keep v → length (revisions j v.history) ≤ keep v
IsTrimmed-bound v j h on = ground (arith, h j, on)

log-IsTrimmed :
    (mark : Mark) (k : Bytes) (v : Vault)
    → IsTrimmed v
    → (j : Bytes) → 0 < keep v
    → length (revisions j (log mark k v).history) ≤ keep v
log-IsTrimmed mark k v h j on = elim (Bool-cases (keep v == 0 || reserved k)) [
  | inl off ↦ rw (log_off mark k v off) (IsTrimmed-bound v j h on)
  | inr rec ↦ rw (revisions-log mark k v j rec) (elim (Bool-cases (str_eq k j)) [
    | inl e ↦
        rw e (length-push (keep v) (current mark (lookup k v.secrets)) (revisions k v.history))
    | inr n ↦ rw n (IsTrimmed-bound v j h on)
  ])
]

-- Setting a key keeps the limit for every key, unless the key set is the limit itself.
pub put-IsTrimmed :
    (mark : Mark) (k val : Bytes) (v : Vault)
    → str_eq k history_key ≡ false
    → IsTrimmed v
    → IsTrimmed (put mark k val v)
put-IsTrimmed mark k val v n h = IsTrimmed-intro (put mark k val v) λ j on.
    let e = keep-put mark k val v n in
    let on' : 0 < keep v = omega (arith, e) in
    rw (e, history-put mark k val v)
      (elim (Bool-cases (holds k val v.secrets)) [
        | inl y ↦ rw y (IsTrimmed-bound v j h on')
        | inr y ↦ rw y (log-IsTrimmed mark k v h j on')
      ])

pub drop-IsTrimmed :
    (mark : Mark) (k : Bytes) (v : Vault)
    → str_eq k history_key ≡ false
    → IsTrimmed v
    → IsTrimmed (drop mark k v)
drop-IsTrimmed mark k v n h = IsTrimmed-intro (drop mark k v) λ j on.
    let e = keep-drop mark k v n in
    let on' : 0 < keep v = omega (arith, e) in
    rw (e, history-drop mark k v) (log-IsTrimmed mark k v h j on')

switch_to-secrets :
    (n : ℕ) (v : Vault)
    → lookup history_key (switch_to n v).secrets
      ≡ (if n == default_history then none else some (itoa n))
unfolding switch_to
switch_to-secrets n v = ground (
  arith,
  lookup-delete history_key history_key v.secrets,
  lookup-insert history_key history_key (itoa n) v.secrets,
  str_eq_refl history_key,
)

-- `history on n` and `history off` (n = 0) set the limit to what was asked for.
pub keep-switch_to : (n : ℕ) (v : Vault) → n ≤ max_int → keep (switch_to n v) ≡ n
unfolding keep
keep-switch_to n v h = ground (arith, switch_to-secrets n v, atoi-itoa n h)

revisions-trim :
    (n : ℕ) (j : Bytes) (m : Dict (List Revision))
    → revisions j (trim n m) ≡ (if ltb 0 n then take n (revisions j m) else revisions j m)
unfolding trim lookup
revisions-trim zero j [] = refl
revisions-trim (suc n) j [] = ground arith
revisions-trim zero j ((k, revs) ∷ m) = ground (arith, revisions-trim zero j m)
revisions-trim (suc n) j ((k, revs) ∷ m) =
    ground (arith, revisions-trim (suc n) j m, take_all (suc n) revs)

-- Switching the limit brings every key under it, whatever was stored before.
pub switch_to-IsTrimmed : (n : ℕ) (v : Vault) → n ≤ max_int → IsTrimmed (switch_to n v)
switch_to-IsTrimmed n v h =
    IsTrimmed-intro (switch_to n v)
      λ j on. let e = keep-switch_to n v h in rw e (bounded j (omega (arith, e)))
  where
    bounded : (j : Bytes) → 0 < n → length (revisions j (switch_to n v).history) ≤ n
    bounded j on =
        unfold switch_to in
        ground (arith, revisions-trim n j v.history, length-take n (revisions j v.history), on)
