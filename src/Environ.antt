-- ===== src/Environ.antt =====
-- main.go: secretEnviron, the environment of a child. `environ` is os.Environ, `getenv` os.Getenv;
-- the JSON of a list of names (encoding/json) is the argument `json`.
pub mod Lookup
use schain.Prelude.{
  ℕ, zero, suc, ◌+◌, ◌≡◌, Bool, true, false, ◌&&◌, ◌||◌, not, Option, none, some, List, [], ◌∷◌,
  ◌++◌, if◌then◌else◌, map,
}
use schain.Prelude.Text.{Bytes, codes, str_eq, contains, cut_byte, member}
use schain.Prelude.Split.{join}
use schain.Prelude.Dict.{Dict, lookup, keys_of}
use schain.Prelude.Sort.{sort_strings}
use schain.Fail.{Result, ok, err, ◌>>=◌, no_inventory, bad_inventory, bad_entry}
use schain.Vault.{text_at}

abbrev pub equals : ℕ
equals = 61

abbrev pub colon : ℕ
colon = 58

abbrev pub active_name : Bytes
active_name = codes "SCHAIN_ACTIVE"

abbrev pub shell_name : Bytes
shell_name = codes "SCHAIN_SHELL"

abbrev pub keys_name : Bytes
keys_name = codes "SCHAIN_KEYS"

-- `decode` is none for a text that is no list of strings, and for `null`.
pub record Json : Type 0 where
  pub encode : List Bytes → Bytes
  pub decode : Bytes → Option (List Bytes)

unfoldable pub is_marker : Bytes → Bool
is_marker k = str_eq k active_name || str_eq k shell_name || str_eq k keys_name

-- Not empty, and neither `=` nor NUL in it.
unfoldable pub valid_name : Bytes → Bool
valid_name k = not (str_eq k []) && not (contains k equals) && not (contains k 0)

unfoldable pub all_valid : List Bytes → Bool
unfolding valid_name
all_valid [] = true
all_valid (k ∷ ks) = valid_name k && all_valid ks

unfoldable pub entries_valid : Dict Bytes → Bool
unfolding valid_name
entries_valid [] = true
entries_valid ((k, val) ∷ m) = valid_name k && not (contains val 0) && entries_valid m

-- `k, _, _ := strings.Cut(kv, "=")`
unfoldable pub name_of : Bytes → Bytes
name_of kv = elim (cut_byte kv equals) [ none ↦ kv | some (k, val) ↦ k ]

unfoldable pub kept : List Bytes → List Bytes → List Bytes
unfolding name_of
kept skip [] = []
kept skip (kv ∷ es) =
    if is_marker (name_of kv) || member (name_of kv) skip then kept skip es else kv ∷ kept skip es

unfoldable pub entry : Bytes → Bytes → Bytes
entry k val = k ++ (equals ∷ val)

unfoldable pub injected : Dict Bytes → List Bytes → List Bytes
unfolding entry
injected m [] = []
injected m (k ∷ ks) = if is_marker k then injected m ks else entry k (text_at k m) ∷ injected m ks

unfoldable pub unmarked : List Bytes → List Bytes
unmarked [] = []
unmarked (k ∷ ks) = if is_marker k then unmarked ks else k ∷ unmarked ks

unfoldable pub shell_entry : Bytes → List Bytes
shell_entry [] = []
shell_entry (c ∷ s) = entry shell_name (c ∷ s) ∷ []

abbrev pub checked : Bool → List Bytes → Result (List Bytes)
checked b env = if b then ok env else err bad_entry

module _ (json : Json) where
  -- The keys that an outer schain shell put in, if there is one.
  unfoldable pub previous_keys : (Bytes → Bytes) → Result (List Bytes)
  previous_keys getenv =
      if str_eq (getenv active_name) [] then ok [] else elim (json.decode (getenv keys_name)) [
        | none ↦ err no_inventory
        | some ks ↦ if all_valid ks then ok ks else err bad_inventory
      ]

  unfoldable pub build_env : List Bytes → List Bytes → Dict Bytes → List Bytes → Bytes → List Bytes
  build_env environ previous secrets paths shell =
      kept (previous ++ keys_of secrets) environ
      ++ (injected secrets (sort_strings (keys_of secrets))
          ++ (entry keys_name (json.encode (unmarked (sort_strings (keys_of secrets))))
              ∷ (entry active_name (join colon paths) ∷ shell_entry shell)))

  unfoldable pub secret_environ :
      (Bytes → Bytes) → List Bytes → Dict Bytes → List Bytes → Bytes → Result (List Bytes)
  secret_environ getenv environ secrets paths shell = do
    previous ← previous_keys getenv
    checked (entries_valid secrets) (build_env environ previous secrets paths shell)

-- What getenv(3) finds in an environment: the first entry of the name.
unfoldable pub find_env : Bytes → List Bytes → Option Bytes
unfolding name_of
find_env k [] = none
find_env k (kv ∷ es) = elim (cut_byte kv equals) [
  | none ↦ find_env k es
  | some (name, val) ↦ if str_eq name k then some val else find_env k es
]
