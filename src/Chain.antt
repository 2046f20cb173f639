-- ===== src/Chain.antt =====
-- chain.go: a chain of vaults, root-most first, and its merge.
pub mod Merge
pub mod Distinct
pub mod Paths
pub mod Nearest
use schain.Prelude.{
  ℕ, zero, suc, ◌+◌, Bool, true, false, ◌&&◌, ◌||◌, not, Option, none, some, List, [], ◌∷◌, ◌++◌,
  if◌then◌else◌, length,
}
use schain.Prelude.Text.{Bytes, codes, str_eq, member}
use schain.Prelude.Dict.{Dict, lookup, insert, delete, keys_of, has_key}
use schain.Fail.{Fail, Result, ok, err, ◌>>=◌, in_vault, panic}
use schain.Expand.{expand_value}
use schain.Vault.{Vault, root_key, history_key, expand_key, expands}

-- Three parallel slices; an index that a slice lacks is a panic.
pub record Chain : Type 0 where
  pub vaults : List Vault
  pub paths : List Bytes
  pub dirs : List Bytes

abbrev pub first : List Bytes → Option Bytes
first [] = none
first (x ∷ xs) = some x

abbrev pub rest_of : List Bytes → List Bytes
rest_of [] = []
rest_of (x ∷ xs) = xs

-- The error of one key, with the vault that defines it.
unfoldable pub blame : Bytes → Option Bytes → Result Bytes → Result Bytes
blame k path (ok got) = ok got
blame k none (err e) = err panic
blame k (some p) (err e) = err (in_vault k p e)

unfoldable pub without_reserved : Dict Bytes → Dict Bytes
without_reserved m = delete root_key (delete history_key (delete expand_key m))

module _ (getenv : Bytes → Bytes) where
  -- The value that a vault's key has in the merge.
  unfoldable pub exported :
      Bool → Vault → Option Bytes → Option Bytes → Bytes → Bytes → Result Bytes
  unfolding blame
  exported expand v path none k val = if expand && expands v k then err panic else ok val
  exported expand v path (some dir) k val =
      if expand && expands v k then blame k path (expand_value getenv val dir) else ok val

  -- The inner loop, over the secrets of one vault.
  unfoldable pub merge_keys :
      Bool → Vault → Option Bytes → Option Bytes → Dict Bytes → Dict Bytes → Result (Dict Bytes)
  merge_keys expand v path dir [] out = ok out
  merge_keys expand v path dir ((k, val) ∷ m) out = elim (exported expand v path dir k val) [
    | err e ↦ err e
    | ok got ↦ merge_keys expand v path dir m (insert k got out)
  ]

  -- The outer loop, over the vaults with their paths and directories.
  unfoldable pub merge_vaults :
      Bool → List Vault → List Bytes → List Bytes → Dict Bytes → Result (Dict Bytes)
  merge_vaults expand [] ps ds out = ok out
  merge_vaults expand (v ∷ vs) ps ds out =
      elim (merge_keys expand v (first ps) (first ds) v.secrets out) [
        | err e ↦ err e
        | ok out' ↦ merge_vaults expand vs (rest_of ps) (rest_of ds) out'
      ]

  unfoldable pub merge : Bool → Chain → Result (Dict Bytes)
  unfolding merge_vaults merge_keys without_reserved
  merge expand c = do
    out ← merge_vaults expand c.vaults c.paths c.dirs []
    ok (without_reserved out)

  -- `out, _ := c.merge(false)`: a nil map if there is an error
  unfoldable pub secrets : Chain → Dict Bytes
  unfolding merge
  secrets c = elim (merge false c) [ ok out ↦ out | err e ↦ [] ]

  unfoldable pub env : Chain → Result (Dict Bytes)
  unfolding merge
  env c = merge true c

unfoldable pub definer_from :
    Bytes → List Vault → List Bytes → Option Vault × Bytes → Result (Option Vault × Bytes)
definer_from k [] ps found = ok found
definer_from k (v ∷ vs) ps found =
    if has_key k v.secrets
    then (elim (first ps) [
      | none ↦ err panic
      | some p ↦ definer_from k vs (rest_of ps) (some v, p)
    ])
    else definer_from k vs (rest_of ps) found

unfoldable pub definer_of : Bytes → Chain → Result (Option Vault × Bytes)
unfolding definer_from
definer_of k c = definer_from k c.vaults c.paths (none, [])

unfoldable pub source_of : Bytes → Chain → Result Bytes
unfolding definer_of
source_of k c = do found ← definer_of k c; ok found.1

-- The last of both slices; a chain with no vault has none.
unfoldable pub nearest_from : List Vault → List Bytes → Result (Vault × Bytes)
nearest_from [] ps = err panic
nearest_from (v ∷ []) (p ∷ ps) = ok (v, p)
nearest_from (v ∷ w ∷ vs) (p ∷ ps) = nearest_from (w ∷ vs) ps
nearest_from (v ∷ vs) [] = err panic

unfoldable pub nearest : Chain → Result (Vault × Bytes)
unfolding nearest_from
nearest c = nearest_from c.vaults c.paths

-- mergePaths, with the set `seen` as the slice of what was put out.
unfoldable pub merge_list : List Bytes → List Bytes → List Bytes
merge_list [] out = out
merge_list (p ∷ l) out = merge_list l (if member p out then out else out ++ p ∷ [])

unfoldable pub merge_lists : List (List Bytes) → List Bytes → List Bytes
unfolding merge_list
merge_lists [] out = out
merge_lists (l ∷ ls) out = merge_lists ls (merge_list l out)

unfoldable pub merge_paths : List (List Bytes) → List Bytes
unfolding merge_lists
merge_paths lists = merge_lists lists []

unfoldable pub rev_onto : List Bytes → List Bytes → List Bytes
rev_onto [] out = out
rev_onto (x ∷ xs) out = rev_onto xs (x ∷ out)

unfoldable pub reversed : List Bytes → List Bytes
unfolding rev_onto
reversed s = rev_onto s []
