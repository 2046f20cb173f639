-- ===== src/Vault.antt =====
-- vault.go and expand.go: an opened vault in memory, its edits and the history that they keep.
-- The time and the label of a revision (`nowUnix`, `changedBy`) are the argument `mark`.
pub mod Expanded
pub mod Edits
pub mod Stamps
use schain.Prelude.{
  ℕ, zero, suc, ◌+◌, Bool, true, false, ◌&&◌, ◌||◌, not, Option, none, some, List, [], ◌∷◌, ◌++◌,
  if◌then◌else◌, ◌==◌, ltb, length, take, map,
}
use schain.Prelude.Text.{Bytes, codes, str_eq, member}
use schain.Prelude.Split.{split, join}
use schain.Prelude.Dict.{Dict, lookup, insert, delete, keys_of, has_key}
use schain.Prelude.Sort.{sort_strings, sort_by}
use schain.Prelude.Number.{ℤ, pos, negsuc, atoi}

abbrev pub vault_name : Bytes
vault_name = codes ".schain"

abbrev pub root_key : Bytes
root_key = codes "SCHAIN_ROOT"

abbrev pub history_key : Bytes
history_key = codes "SCHAIN_HISTORY"

abbrev pub expand_key : Bytes
expand_key = codes "SCHAIN_EXPAND"

abbrev pub default_history : ℕ
default_history = 3

unfoldable pub reserved : Bytes → Bool
reserved k = str_eq k root_key || str_eq k history_key || str_eq k expand_key

pub record Revision : Type 0 where
  pub at : ℤ
  pub val : Bytes
  pub by : Bytes
  pub gone : Bool

-- `stamp` is none for a vault that had no file.
pub record Vault : Type 0 where
  pub iters : ℕ
  pub salt : Bytes
  pub key : Bytes
  pub secrets : Dict Bytes
  pub history : Dict (List Revision)
  pub rev : ℕ
  pub stamp : Option Bytes

-- What `record` reads of its surroundings.
pub record Mark : Type 0 where
  pub now : ℤ
  pub by : Bytes

abbrev pub text_at : Bytes → Dict Bytes → Bytes
text_at k m = elim (lookup k m) [ none ↦ [] | some v ↦ v ]

abbrev pub revisions : Bytes → Dict (List Revision) → List Revision
revisions k m = elim (lookup k m) [ none ↦ [] | some h ↦ h ]

abbrev pub comma : ℕ
comma = 44

unfoldable pub expands : Vault → Bytes → Bool
expands v k = member k (split comma (text_at expand_key v.secrets))

-- The names that stay: not empty and not `k`.
unfoldable pub other_names : Bytes → List Bytes → List Bytes
other_names k [] = []
other_names k (n ∷ ns) =
    if not (str_eq n []) && not (str_eq n k) then n ∷ other_names k ns else other_names k ns

-- `setExpand` once the new list is made.
unfoldable pub store_expand : List Bytes → Dict Bytes → Dict Bytes
store_expand [] m = delete expand_key m
store_expand (n ∷ ns) m = insert expand_key (join comma (sort_strings (n ∷ ns))) m

unfoldable pub set_expand : Bytes → Bool → Vault → Vault
unfolding store_expand other_names
set_expand k on v =
    let names = other_names k (split comma (text_at expand_key v.secrets)) in
    record v { secrets = store_expand (if on then names ++ k ∷ [] else names) v.secrets }

unfoldable pub keep_of : Option ℤ → ℕ
keep_of none = default_history
keep_of (some (negsuc n)) = default_history
keep_of (some (pos n)) = n

unfoldable pub keep : Vault → ℕ
unfolding keep_of
keep v = elim (lookup history_key v.secrets) [ none ↦ default_history | some s ↦ keep_of (atoi s) ]

-- The revision that says what a key is now.
unfoldable pub current : Mark → Option Bytes → Revision
current mark (some cur) = record { at = mark.now; val = cur; by = mark.by; gone = false }
current mark none = record { at = mark.now; val = []; by = mark.by; gone = true }

unfoldable pub push : ℕ → Revision → List Revision → List Revision
push n r h = let more = r ∷ h in if ltb n (length more) then take n more else more

unfoldable pub log : Mark → Bytes → Vault → Vault
unfolding current push
log mark k v =
    let n = keep v in
    let r = current mark (lookup k v.secrets) in
    if n == 0 || reserved k
    then v
    else record v { history = insert k (push n r (revisions k v.history)) v.history }

abbrev pub holds : Bytes → Bytes → Dict Bytes → Bool
holds k val m = elim (lookup k m) [ none ↦ false | some cur ↦ str_eq cur val ]

unfoldable pub put : Mark → Bytes → Bytes → Vault → Vault
put mark k val v =
    let v' = log mark k v in
    if holds k val v.secrets then v else record v' { secrets = insert k val v'.secrets }

unfoldable pub drop : Mark → Bytes → Vault → Vault
drop mark k v =
    let v' = set_expand k false (log mark k v) in record v' { secrets = delete k v'.secrets }

unfoldable pub keys : Vault → List Bytes
keys v = sort_strings (keys_of v.secrets)
