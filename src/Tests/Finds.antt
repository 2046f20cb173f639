-- ===== src/Tests/Finds.antt =====
-- The search for vaults (chain.go), `passwd` and `ls` (main.go).
use schain.Prelude.{
  ℕ, ◌≡◌, refl, true, false, Option, none, some, List, [], ◌∷◌, ◌++◌, map, if◌then◌else◌,
}
use schain.Prelude.Text.{Bytes, codes, str_eq, contains, member, has_prefix}
use schain.Prelude.Paths.{
  clean, dir_of, join_path, backwards, rel_path, is_abs, trim_space, join_path3, base_of,
}
use schain.Prelude.Absolute.{Names, abs_path}
use schain.Prelude.Dict.{lookup, has_key, keys_of, insert, delete}
use schain.Prelude.Split.{split, join}
use schain.Prelude.Sort.{IsSorted, str_lt, sort_by}
use schain.Fail.{ok, err, bad_passphrase}
use schain.Vault.{Vault}
use schain.Chain.{merge_paths, secrets}
use schain.Worktree.{Worktree, find_worktree}
use schain.Format.{
  Crypto, open_vault, open_vault_key, rekey, save, file_of, check_unchanged, magic_of, payload,
  is_empty, header, put_uint32,
}
use schain.Format.Layout
use schain.Format.Layout.{Decodes, envelope_of}
use schain.Passwd.{change_passphrase}
use schain.Passwd.Changed.{open_vault-change_passphrase}
use schain.Tests.Files.{zeros, toy, toy-IsSound, nonce, vault}
use schain.Chain.{exported}
use schain.Listing.{Row, LsFlags, bare, key_of, ls_chain}
use schain.Prelude.Count.{count}
use schain.Listing.Keys.{map-ls_chain}
use schain.Tests.Chains.{two, getenv}
use schain.Discover.{System, vaults_from, resolve_from}
use schain.Discover.Ancestors.{dir_at, vaults_above, only, vaults_from-above}
use schain.Discover.Resolved.{Answered, IsSound, resolve_from-IsSound}
use schain.Discover.Plain.{resolve_from-plain}

abbrev pub sys : System
sys = record {
  getwd = ok (codes "/w/p");
  files = record { abs = λ p. none; eval_symlinks = λ p. some p; read_file = λ p. none };
  is_vault_file = λ p. str_eq p (codes "/w/.schain");
  getenv = λ k. [];
}

abbrev names : List Bytes
names = codes "p" ∷ codes "w" ∷ []

names-Names : Names names
unfolding contains str_eq
names-Names = (
  record { lacks_slash = refl; some_byte = refl; no_dot = refl; no_dot_dot = refl },
  (record { lacks_slash = refl; some_byte = refl; no_dot = refl; no_dot_dot = refl }, tt),
)

vaults_from-above_example :
    vaults_from sys (dir_at names) ≡ only sys.is_vault_file (vaults_above names)
vaults_from-above_example = vaults_from-above sys names names-Names

one_found : only sys.is_vault_file (vaults_above names) ≡ codes "/w/.schain" ∷ []
unfolding only str_eq backwards abs_path join
one_found = refl

no_worktree : (d : Bytes) → find_worktree sys.files d ≡ none
unfolding find_worktree
no_worktree d = refl

resolve_from-plain_example :
    resolve_from sys (dir_at names)
    ≡ record { paths = merge_paths (vaults_from sys (dir_at names) ∷ []); borrowed = [] }
resolve_from-plain_example = resolve_from-plain sys names names-Names no_worktree

-- The worktree /t, whose checkout /m has the only vault.
abbrev shared : System
shared = record {
  getwd = ok (codes "/t/p");
  files = record {
    abs = λ p. some p;
    eval_symlinks = λ p. some p;
    read_file = λ p.
        if str_eq p (codes "/t/.git")
        then some (codes "gitdir: /m/.git/worktrees/t")
        else if str_eq p (codes "/m/.git/worktrees/t/commondir")
        then some (codes "../..")
        else if str_eq p (codes "/m/.git/worktrees/t/gitdir")
        then some (codes "/t/.git")
        else none;
  };
  is_vault_file = λ p. str_eq p (codes "/m/p/.schain");
  getenv = λ k. [];
}

shared_borrows : resolve_from shared (codes "/t/p") ≡ record {
  paths = codes "/m/p/.schain" ∷ [];
  borrowed = (codes "/m/p/.schain", codes "/t/p") ∷ [];
}
unfolding resolve_from find_worktree trim_space clean dir_of join_path join_path3 rel_path is_abs
    split join str_eq has_prefix member insert backwards base_of
shared_borrows = refl

resolve_from-IsSound_example :
    (w : Option (Worktree × ℕ)) × Answered shared (codes "/t/p") w
    × IsSound shared (codes "/t/p") w (resolve_from shared (codes "/t/p"))
resolve_from-IsSound_example = resolve_from-IsSound shared (codes "/t/p")

abbrev new_salt : Bytes
new_salt = 7 ∷ nonce ++ 1 ∷ 2 ∷ 3 ∷ []

abbrev renewed : Vault
renewed = rekey toy new_salt (codes "new") vault

abbrev opener : Crypto
opener = record toy { decode_envelope = λ s. some (envelope_of renewed) }

abbrev renewed' : Vault
renewed' = record renewed { rev = 0; stamp = some (file_of opener nonce renewed) }

passwd_runs :
    change_passphrase opener false new_salt nonce none (codes "new") vault
    ≡ ok (renewed', file_of opener nonce renewed)
unfolding change_passphrase rekey save check_unchanged file_of magic_of payload is_empty header
    put_uint32
passwd_runs = refl

opener-IsSound : Layout.IsSound opener
opener-IsSound = record {
  unseal-seal = toy-IsSound.unseal-seal;
  length-seal = toy-IsSound.length-seal;
}

opener-Decodes : Decodes opener renewed
unfolding rekey
opener-Decodes = record { decode-encode_flat = refl; decode-encode_envelope = refl }

open_vault-change_passphrase_example :
    (open_vault opener (some (file_of opener nonce renewed)) (codes "new") ≡ ok renewed')
    × (renewed'.secrets ≡ vault.secrets)
    × (renewed'.history ≡ vault.history)
    × (open_vault_key opener (some (file_of opener nonce renewed)) zeros (codes "k")
        ≡ err bad_passphrase)
unfolding str_eq rekey
open_vault-change_passphrase_example =
    open_vault-change_passphrase opener false new_salt nonce none (codes "new") vault renewed'
      (file_of opener nonce renewed) zeros (codes "k") opener-IsSound opener-Decodes refl refl refl
      passwd_runs

abbrev ls_plain : LsFlags
ls_plain = record { local = false; verbose = false; plain = true }

abbrev listed : List Row
listed = bare (codes "A") ∷ bare (codes "B") ∷ []

ls_runs : ls_chain getenv none [] false ls_plain two ≡ ok listed
unfolding ls_chain secrets exported insert delete lookup keys_of str_eq str_lt sort_by
ls_runs = refl

map-ls_chain_example :
    IsSorted (map key_of listed)
    × (count (codes "B") (map key_of listed)
        ≡ (if has_key (codes "B") (secrets getenv two) then 1 else 0))
map-ls_chain_example = map-ls_chain getenv none [] false ls_plain two listed (codes "B") ls_runs
