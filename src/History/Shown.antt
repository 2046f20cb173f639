-- ===== src/History/Shown.antt =====
-- history.go: `schain history`, what is kept for the keys of the nearest vault. Values are not shown.
use schain.Prelude.{
  ℕ, ◌+◌, Bool, true, false, not, Option, none, some, List, [], ◌∷◌, if◌then◌else◌, ltb, length,
}
use schain.Prelude.Text.{Bytes}
use schain.Prelude.Dict.{keys_of, has_key}
use schain.Prelude.Sort.{str_lt, sort_by}
use schain.Prelude.Number.{ℤ, pos, negsuc}
use schain.Fail.{Result, ok, err, ◌>>=◌, panic, no_key}
use schain.Vault.{Vault, Revision, revisions}

-- A line of the table: the key, whether it is unset, how many revisions are kept, and the last change.
pub record Entry : Type 0 where
  pub key : Bytes
  pub is_unset : Bool
  pub kept : ℕ
  pub at : ℤ
  pub by : Bytes

-- A line of one key's history: how far back it is, and whether reverting to it removes the key.
pub record Line : Type 0 where
  pub back : ℕ
  pub at : ℤ
  pub by : Bytes
  pub is_gone : Bool

unfoldable pub later : ℤ → ℤ → Bool
later (pos a) (pos b) = ltb b a
later (pos a) (negsuc b) = true
later (negsuc a) (pos b) = false
later (negsuc a) (negsuc b) = ltb a b

unfoldable pub entry_of : Vault → Bytes → Result Entry
entry_of v k = elim (revisions k v.history) [
  | [] ↦ err panic
  | r ∷ rs ↦ ok (record {
    key = k;
    is_unset = not (has_key k v.secrets);
    kept = length (r ∷ rs);
    at = r.at;
    by = r.by;
  })
]

unfoldable pub entries_of : Vault → List Bytes → Result (List Entry)
unfolding entry_of
entries_of v [] = ok []
entries_of v (k ∷ ks) = entry_of v k >>= λ e. entries_of v ks >>= λ es. ok (e ∷ es)

-- The order of the table: the later change first, then by key.
unfoldable pub before : Entry → Entry → Bool
unfolding later
before a b = if later a.at b.at then true else if later b.at a.at then false else str_lt a.key b.key

-- The table; empty where there is no history.
unfoldable pub history_table : Vault → Result (List Entry)
unfolding entries_of before
history_table v = entries_of v (keys_of v.history) >>= λ es. ok (sort_by before es)

unfoldable pub lines_of : ℕ → List Revision → List Line
lines_of i [] = []
lines_of i (r ∷ rs) =
    record { back = i + 1; at = r.at; by = r.by; is_gone = r.gone } ∷ lines_of (i + 1) rs

-- showKey: whether the key is set now, and its lines; none where it is set and has no history.
unfoldable pub show_key : Vault → Bytes → Result (Option (Bool × List Line))
unfolding lines_of
show_key v key = elim (revisions key v.history) [
  | [] ↦ if has_key key v.secrets then ok none else err (no_key key)
  | r ∷ rs ↦ ok (some (has_key key v.secrets, lines_of 0 (r ∷ rs)))
]
