-- ===== src/History.antt =====
-- history.go: the commands on the history of the nearest vault. `opened` is what openNearest returns;
-- a command ends with the vault that it hands to `save`, or with none where it writes nothing.
pub mod Undo
pub mod Limit
pub mod Shown
pub mod Reached
use schain.Prelude.{
  ℕ, zero, suc, ◌+◌, ◌-◌, Bool, true, false, ◌&&◌, ◌||◌, not, Option, none, some, List, [], ◌∷◌,
  ◌++◌, if◌then◌else◌, ◌==◌, ltb, leb, length, take, get_elem?,
}
use schain.Prelude.Text.{Bytes, codes, str_eq}
use schain.Prelude.Dict.{Dict, lookup, insert, delete, keys_of, has_key}
use schain.Prelude.Number.{ℤ, pos, negsuc, atoi, itoa}
use schain.Fail.{
  Result, ok, err, ◌>>=◌, panic, usage, bad_step, bad_count, no_history, too_far, already_unset,
}
use schain.Vault.{Vault, Revision, Mark, revisions, history_key, default_history, holds, put, drop}

-- A number that must be at least one, as `revert` and `on` read it.
unfoldable pub positive : Option ℤ → Option ℕ
positive none = none
positive (some (negsuc n)) = none
positive (some (pos zero)) = none
positive (some (pos (suc n))) = some (suc n)

-- The `switch` of historyRevert.
unfoldable pub revert_to : Mark → Bytes → Revision → Vault → Result (Option Vault)
revert_to mark key target v =
    if target.gone && not (has_key key v.secrets)
    then err (already_unset key)
    else if not target.gone && holds key target.val v.secrets
    then ok none
    else if target.gone
    then ok (some (drop mark key v))
    else ok (some (put mark key target.val v))

-- historyRevert once the vault is open, up to the call of `save`; `revs` is the key's history.
unfoldable pub revert_from : Mark → Bytes → ℕ → List Revision → Vault → Result (Option Vault)
revert_from mark key back revs v =
    if length revs == 0
    then err (no_history key)
    else if ltb (length revs) back
    then err (too_far (length revs) key)
    else elim (get_elem? revs (back - 1)) [
      | none ↦ err panic
      | some target ↦ revert_to mark key target v
    ]

unfoldable pub revert_at : Mark → Bytes → ℕ → Vault → Result (Option Vault)
unfolding revert_from
revert_at mark key back v = revert_from mark key back (revisions key v.history) v

unfoldable pub history_revert : Mark → Result Vault → List Bytes → Result (Option Vault)
unfolding positive revert_at
history_revert mark opened [] = err usage
history_revert mark opened (key ∷ []) = do v ← opened; revert_at mark key 1 v
history_revert mark opened (key ∷ n ∷ []) = elim (positive (atoi n)) [
  | none ↦ err (bad_step n)
  | some back ↦ opened >>= λ v. revert_at mark key back v
]
history_revert mark opened (key ∷ n ∷ x ∷ rest) = err usage

unfoldable pub trim : ℕ → Dict (List Revision) → Dict (List Revision)
trim n [] = []
trim n ((k, revs) ∷ m) =
    (if ltb n (length revs) && ltb 0 n then (k, take n revs) else (k, revs)) ∷ trim n m

-- historySwitch between opening and saving.
unfoldable pub switch_to : ℕ → Vault → Vault
unfolding trim
switch_to n v = record v {
  secrets =
      if n == default_history
      then delete history_key v.secrets
      else insert history_key (itoa n) v.secrets;
  history = trim n v.history;
}

-- The first argument is whether the verb is `off`.
unfoldable pub history_switch : Bool → Result Vault → List Bytes → Result (Option Vault)
unfolding switch_to positive
history_switch true opened [] = do v ← opened; ok (some (switch_to 0 v))
history_switch true opened (x ∷ rest) = err usage
history_switch false opened [] = do v ← opened; ok (some (switch_to default_history v))
history_switch false opened (n ∷ []) = elim (positive (atoi n)) [
  | none ↦ err (bad_count n)
  | some got ↦ opened >>= λ v. ok (some (switch_to got v))
]
history_switch false opened (n ∷ x ∷ rest) = err usage

unfoldable pub purge_keys : List Bytes → Dict (List Revision) → Result (Dict (List Revision))
purge_keys [] m = ok m
purge_keys (k ∷ ks) m = elim (has_key k m) [
  | false ↦ err (no_history k)
  | true ↦ purge_keys ks (delete k m)
]

unfoldable pub history_purge : Result Vault → List Bytes → Result (Option Vault)
unfolding purge_keys
history_purge opened [] = do v ← opened; ok (some (record v { history = [] }))
history_purge opened (k ∷ ks) = do
  v ← opened
  m ← purge_keys (k ∷ ks) v.history
  ok (some (record v { history = m }))
