-- ===== src/Tests/Others.antt =====
-- What is remembered of a vault (cache.go), linked worktrees (worktree.go), and the commands set and
-- unset (main.go).
use schain.Prelude.{◌≡◌, refl, false, inr, Option, none, some, [], ◌∷◌, ◌++◌, arith, if◌then◌else◌}
use schain.Prelude.Text.{Bytes, codes, str_eq, cut_byte, member}
use schain.Prelude.Number.{pos, itoa}
use schain.Prelude.Paths.{join_path, trim_space, base_of, dir_of}
use schain.Fail.{Result, ok, no_key}
use schain.Vault.{Vault, Mark, drop}
use schain.Cache.{payload_with_expiry, cache_payload, try_cache}
use schain.Cache.Remember.{try_cache-payload_with_expiry}
use schain.Worktree.{Files, Worktree, find_worktree}
use schain.Worktree.Backlink.{IsLinked, find_worktree-IsLinked}
use schain.Prelude.Dict.{lookup, has_key}
use schain.Unset.{unset_keys, lookup-unset_keys}
use schain.Unlock.{prompt}
use schain.Assign.{no_flags, key_value, set_key, set_keys, vet_typed}
use schain.Assign.Values.{assigned, lookup-set_keys}
use schain.Tests.Files.{zeros, vault}

abbrev opener : Bytes → Bytes → Result Vault
opener s k = ok vault

abbrev stored : Bytes
stored = cache_payload zeros (zeros ++ zeros) ++ codes ":1060"

stored_runs : payload_with_expiry 1000 (cache_payload zeros (zeros ++ zeros)) (pos 60) ≡ ok stored
unfolding payload_with_expiry cache_payload itoa
stored_runs = refl

try_cache-payload_with_expiry_example : try_cache (ok stored) 1059 opener ≡ (some vault, false)
try_cache-payload_with_expiry_example =
    try_cache-payload_with_expiry zeros (zeros ++ zeros) (ground arith) (ground arith) refl refl
      1000 60 1059 stored opener (omega arith) stored_runs

abbrev read : Bytes → Option Bytes
read p =
    if str_eq p (codes "/w/.git")
    then some (codes "gitdir: /r/.git/worktrees/w\n")
    else if str_eq p (codes "/r/.git/worktrees/w/commondir")
    then some (codes "../..\n")
    else if str_eq p (codes "/r/.git/worktrees/w/gitdir")
    then some (codes "/w/.git\n")
    else none

abbrev disk : Files
disk = record { abs = λ p. some p; eval_symlinks = λ p. some p; read_file = read }

abbrev linked : Worktree
linked = record { root = codes "/w"; main = codes "/r" }

linked_runs : find_worktree disk (codes "/w") ≡ some linked
unfolding find_worktree join_path trim_space base_of dir_of str_eq
linked_runs = refl

find_worktree-IsLinked_example : IsLinked disk linked
find_worktree-IsLinked_example = find_worktree-IsLinked disk (codes "/w") linked linked_runs

abbrev mark : Mark
mark = record { now = pos 7; by = codes "me" }

abbrev written : Vault
written =
    set_key mark no_flags (codes "B") (codes "x")
      (set_key mark no_flags (codes "A") (codes "2") vault)

set_keys_runs :
    set_keys (λ n. []) mark no_flags (codes "A=2" ∷ codes "B" ∷ []) (ok (codes "x") ∷ []) vault
    ≡ ok (written, [])
unfolding set_keys key_value cut_byte vet_typed prompt
set_keys_runs = refl

lookup-set_keys_example : lookup (codes "B") written.secrets ≡ some (codes "x")
unfolding assigned key_value cut_byte str_eq prompt
lookup-set_keys_example =
    lookup-set_keys (λ n. []) mark no_flags (codes "B") (codes "A=2" ∷ codes "B" ∷ [])
      (ok (codes "x") ∷ []) [] vault written (unfold str_eq in refl) set_keys_runs

abbrev emptied : Vault
emptied = drop mark (codes "A") vault

unset_keys_runs : unset_keys no_key mark (codes "A" ∷ []) vault ≡ ok emptied
unfolding unset_keys has_key lookup str_eq
unset_keys_runs = refl

lookup-unset_keys_example : lookup (codes "A") emptied.secrets ≡ none
unfolding member str_eq
lookup-unset_keys_example =
    lookup-unset_keys mark (codes "A") no_key (codes "A" ∷ []) vault emptied
      (inr (unfold str_eq in refl)) unset_keys_runs
