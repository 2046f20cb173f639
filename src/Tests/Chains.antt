-- ===== src/Tests/Chains.antt =====
-- Chains of vaults and a child's environment (chain.go, main.go).
use schain.Prelude.{
  ◌≡◌, ◌⊎◌, refl, true, false, none, some, List, [], ◌∷◌, ◌++◌, if◌then◌else◌, length, All,
}
use schain.Prelude.Text.{Bytes, codes, str_eq, contains, member, cut_byte}
use schain.Prelude.Split.{split, join}
use schain.Prelude.Sort.{str_lt, sort_by}
use schain.Prelude.Dict.{Dict, lookup, insert, delete, has_key, keys_of, IsMap}
use schain.Fail.{ok, err, bad_passphrase, is_abort}
use schain.Expand.{expand_value, expand_one}
use schain.Vault.{Vault, expands, reserved, expand_key, text_at}
use schain.Chain.{Chain, merge_paths, merge, env, exported, reversed}
use schain.Chain.Merge.{effective, lookup-merge}
use schain.Chain.Paths.{NoRepeat, in_some, merge_paths_lem}
use schain.Unlock.{Doors, load_chain, unlock_known}
use schain.Unlock.Loaded.{load_chain_lem, EndsAtRoot}
use schain.Batch.{each_vault, settle}
use schain.Batch.Account.{Accounted, each_vault_counts}
use schain.Environ.{
  Json, secret_environ, previous_keys, is_marker, find_env, entries_valid, build_env, all_valid,
  kept, injected, unmarked, shell_entry,
}
use schain.Environ.Lookup.{find_env-secret_environ}

abbrev pub getenv : Bytes → Bytes
getenv k = if str_eq k (codes "HOME") then codes "/h" else []

abbrev holding : Dict Bytes → Vault
holding m = record {
  iters = 600000;
  salt = [];
  key = [];
  secrets = m;
  history = [];
  rev = 0;
  stamp = none;
}

abbrev above : Vault
above = holding ((codes "A", codes "1") ∷ (codes "B", codes "2") ∷ [])

abbrev near : Vault
near = holding ((codes "A", codes "${HOME}") ∷ (expand_key, codes "A") ∷ [])

abbrev pub two : Chain
two = record {
  vaults = above ∷ near ∷ [];
  paths = codes "/w/.schain" ∷ codes "/w/p/.schain" ∷ [];
  dirs = codes "/w" ∷ codes "/w/p" ∷ [];
}

abbrev merged : Dict Bytes
merged = (codes "A", codes "/h") ∷ (codes "B", codes "2") ∷ []

two-merge : merge getenv true two ≡ ok merged
unfolding merge exported expands expand_value expand_one insert delete lookup str_eq cut_byte split
    member
two-merge = refl

two_maps : All (λ v. IsMap v.secrets) two.vaults
unfolding has_key str_eq
two_maps = (((refl, (refl, tt))), ((refl, (refl, tt)), tt))

lookup-merge_example : lookup (codes "A") merged ≡ (
    if reserved (codes "A")
    then none
    else effective getenv true two.vaults two.paths two.dirs (codes "A") none)
lookup-merge_example = lookup-merge getenv true two merged (codes "A") two_maps two-merge

b_plain : All (λ v. expands v (codes "B") ≡ false) two.vaults
unfolding expands split member str_eq lookup
b_plain = (refl, (refl, tt))

two-env : env getenv two ≡ ok merged
unfolding env exported expands expand_value expand_one insert delete lookup str_eq cut_byte split
    member
two-env = refl

-- One passphrase opens the vault of each path whose name is not `x`.
abbrev doors : Doors
doors = record {
  open_cached = λ p. none;
  open_vault = λ p pass. if str_eq p (codes "x") then err bad_passphrase else ok above;
  has_source = false;
  ask_source = λ p. err bad_passphrase;
}

abbrev three_paths : List Bytes
three_paths = codes "p" ∷ codes "x" ∷ codes "q" ∷ []

run_ends :
    (each_vault (λ p v. none) doors three_paths (ok (codes "s") ∷ ok (codes "t") ∷ [])).0.failed
    ≡ none
unfolding each_vault settle is_abort str_eq
run_ends = refl

each_vault_counts_example :
    Accounted
      (λ p v. none)
      doors
      three_paths
      (ok (codes "s") ∷ ok (codes "t") ∷ [])
      (each_vault (λ p v. none) doors three_paths (ok (codes "s") ∷ ok (codes "t") ∷ [])).0
each_vault_counts_example =
    each_vault_counts (λ p v. none) doors three_paths (ok (codes "s") ∷ ok (codes "t") ∷ [])
      run_ends

abbrev loaded : Chain
loaded = record {
  vaults = above ∷ above ∷ [];
  paths = codes "q" ∷ codes "p" ∷ [];
  dirs = codes "/q" ∷ codes "/p" ∷ [];
}

loads :
    load_chain doors
      (codes "p" ∷ codes "q" ∷ [])
      (codes "/p" ∷ codes "/q" ∷ [])
      (ok (codes "s") ∷ [])
    ≡ ok loaded
unfolding load_chain unlock_known lookup str_eq
loads = refl

load_chain_lem_example :
    (used : List Bytes) × (rest : List Bytes) × (codes "p" ∷ codes "q" ∷ [] ≡ used ++ rest)
    × (loaded.paths ≡ reversed used)
    × (length loaded.vaults ≡ length used)
    × ((rest ≡ []) ⊎ EndsAtRoot loaded.vaults)
load_chain_lem_example =
    load_chain_lem doors (codes "p" ∷ codes "q" ∷ []) (codes "/p" ∷ codes "/q" ∷ [])
      (ok (codes "s") ∷ []) loaded loads

-- Inside a schain shell that had put `OLD` and `A` in.
abbrev pub json : Json
json = record { encode = λ ks. join 44 ks; decode = λ s. some (split 44 s) }

abbrev inside : Bytes → Bytes
inside k =
    if str_eq k (codes "SCHAIN_ACTIVE")
    then codes "/w/.schain"
    else if str_eq k (codes "SCHAIN_KEYS")
    then codes "OLD,A"
    else []

abbrev outer : List Bytes
outer = codes "OLD=1" ∷ codes "A=0" ∷ codes "TERM=x" ∷ []

abbrev child : List Bytes
child =
    codes "TERM=x"
    ∷ codes "A=/h"
    ∷ codes "B=2"
    ∷ codes "SCHAIN_KEYS=A,B"
    ∷ codes "SCHAIN_ACTIVE=/w/.schain:/w/p/.schain"
    ∷ []

previous_runs : previous_keys json inside ≡ ok (codes "OLD" ∷ codes "A" ∷ [])
unfolding previous_keys all_valid str_eq split contains
previous_runs = refl

environ_runs : secret_environ json inside outer merged two.paths [] ≡ ok child
unfolding secret_environ previous_keys build_env entries_valid all_valid kept is_marker injected
    unmarked shell_entry str_eq split join contains cut_byte member lookup keys_of sort_by str_lt
environ_runs = refl

find_env-secret_environ_example : find_env (codes "OLD") child ≡ (
    if has_key (codes "OLD") merged
    then some (text_at (codes "OLD") merged)
    else if member (codes "OLD") (codes "OLD" ∷ codes "A" ∷ [])
    then none
    else find_env (codes "OLD") outer)
find_env-secret_environ_example =
    find_env-secret_environ json inside outer merged two.paths [] (codes "OLD" ∷ codes "A" ∷ [])
      child (codes "OLD") previous_runs environ_runs (unfold is_marker str_eq in refl)

merge_paths_lem_example :
    NoRepeat (merge_paths (three_paths ∷ three_paths ∷ []))
    × ((q : Bytes)
        → member q (merge_paths (three_paths ∷ three_paths ∷ []))
          ≡ in_some q (three_paths ∷ three_paths ∷ []))
merge_paths_lem_example = merge_paths_lem (three_paths ∷ three_paths ∷ [])
