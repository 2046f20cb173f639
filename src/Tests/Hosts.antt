-- ===== src/Tests/Hosts.antt =====
-- Directories and whole commands (chain.go, worktree.go, main.go) on a small host.
use schain.Prelude.{
  ◌≡◌, ◌↔◌, refl, ◌||◌, true, false, none, some, List, [], ◌∷◌, ◌++◌, map, if◌then◌else◌,
}
use schain.Prelude.Text.{Bytes, codes, str_eq, contains, member, cut_byte}
use schain.Prelude.Paths.{clean, dir_of, join_path, rel_path, base_of}
use schain.Prelude.Dict.{lookup, has_key, keys_of, insert, delete}
use schain.Prelude.Split.{split, join}
use schain.Prelude.Sort.{IsSorted, str_lt, sort_by}
use schain.Fail.{Result, ok, err, io_error}
use schain.Vault.{reserved, expands}
use schain.Chain.{Chain}
use schain.Worktree.{Worktree, find_worktree}
use schain.Format.{
  open_vault, parse_vault_file, decrypt, file_of, magic_of, payload, is_empty, header, put_uint32,
}
use schain.Tests.Files.{toy, nonce, vault, vault'}
use schain.Environ.{
  find_env, previous_keys, is_marker, secret_environ, build_env, entries_valid, all_valid, kept,
  injected, unmarked, shell_entry,
}
use schain.Chain.{exported, env}
use schain.Chain.Merge.{effective}
use schain.Session.{
  exec_with, Host, Launch, doors, open_cached, open_with, open_chain, cmd_exec, enter_shell,
  parent_shell_path,
}
use schain.Session.Same.{find_env-enter_shell}
use schain.Session.Child.{seen_by_child, find_env-cmd_exec}
use schain.Unlock.{load_chain, unlock_known}
use schain.Askpass.{passphrase_source, succeeded}
use schain.Tests.Chains.{json}
use schain.Discover.{find_vaults, vault_dirs}
use schain.Subshell.{File, bash_init, zsh_rc, fish_init, with_removal, line_end}
use schain.Subshell.Marker.{Assigns, FishShows, scripts-marker}
use schain.Walk.{Node, leaf, folder, childless, child, walk_vaults}
use schain.Walk.Reached.{IsReached, walk_vaults_iff}
use schain.Report.{shadows_main, only_main, vault_report}
use schain.Prelude.Count.{count}
use schain.Report.Shadows.{told, places, vault_report-told}
use schain.Tests.Finds.{sys}

-- The vault at /w, and a program found at /bin/p.
abbrev pub host : Host
host = record {
  sys = sys;
  helper = λ prog p a. record { output = []; ending = succeeded };
  pass_file = λ p. record {
    opens = false;
    has_stat = false;
    is_regular = false;
    perm = 0;
    reads = false;
    content = [];
  };
  crypto = toy;
  file_at = λ p. some (file_of toy nonce vault);
  cached_at = λ p. err io_error;
  now = 0;
  environ = codes "A=0" ∷ codes "B=2" ∷ [];
  json = json;
  look_path = λ s. some (codes "/bin/p");
  exists = λ p. true;
  parent_link = some (codes "/bin/bash");
  parent_name = none;
  home = some (codes "/w");
  mac = false;
  temp = record { make_dir = λ p. some (codes "/tmp/x"); writes = λ p. true };
}

abbrev typed : List (Result Bytes)
typed = ok (codes "k") ∷ []

abbrev opened_chain : Chain
opened_chain = record {
  vaults = vault' ∷ [];
  paths = codes "/w/.schain" ∷ [];
  dirs = codes "/w" ∷ [];
}

opens : open_chain host typed ≡ ok opened_chain
unfolding open_chain file_of magic_of payload is_empty header put_uint32 find_vaults str_eq dir_of
    join_path find_worktree load_chain unlock_known doors open_cached passphrase_source open_with
    open_vault parse_vault_file decrypt lookup vault_dirs
opens = refl

abbrev started : Launch
started = record {
  program = codes "/bin/p";
  arguments = codes "p" ∷ [];
  environment =
      codes "B=2" ∷ codes "A=1" ∷ codes "SCHAIN_KEYS=A" ∷ codes "SCHAIN_ACTIVE=/w/.schain" ∷ [];
}

exec_runs : cmd_exec host (codes "p") [] typed ≡ ok started
unfolding cmd_exec open_chain file_of magic_of payload is_empty header put_uint32 find_vaults str_eq
    dir_of join_path find_worktree load_chain unlock_known doors open_cached passphrase_source
    open_with open_vault parse_vault_file decrypt lookup vault_dirs env exported expands
    secret_environ previous_keys build_env entries_valid all_valid kept is_marker injected unmarked
    shell_entry split join contains cut_byte member keys_of sort_by str_lt delete insert
exec_runs = refl

find_env-cmd_exec_example :
    find_env (codes "A") started.environment
    ≡ seen_by_child host [] (codes "A") (
        if reserved (codes "A")
        then none
        else effective sys.getenv true opened_chain.vaults opened_chain.paths opened_chain.dirs
            (codes "A")
            none)
unfolding str_eq has_key is_marker previous_keys
find_env-cmd_exec_example =
    find_env-cmd_exec host (codes "p") [] typed opened_chain started [] (codes "A") opens
      ((refl, tt), tt) refl exec_runs refl

-- A directory with a vault, one in a directory below it, and one in its `.git`.
abbrev grown : Node
grown = folder (
    child (codes ".git") (folder (child (codes ".schain") leaf childless)) (
      child (codes ".schain") leaf
        (child (codes "p") (folder (child (codes ".schain") leaf childless)) childless)))

grown_runs :
    walk_vaults (λ p. true) (λ p. false) true (codes "/m") grown
    ≡ codes "/m/.schain" ∷ codes "/m/p/.schain" ∷ []
unfolding walk_vaults str_eq clean join_path base_of
grown_runs = refl

walk_vaults_iff_example :
    (member (codes "/m/p/.schain") (walk_vaults (λ p. true) (λ p. false) true (codes "/m") grown)
      ≡ true)
    ↔ IsReached
        (λ p. true)
        (λ p. false)
        true
        (codes "/m")
        (codes "/m")
        (base_of (codes "/m"))
        grown
        (codes "/m/p/.schain")
walk_vaults_iff_example =
    walk_vaults_iff (λ p. true) (λ p. false) true (codes "/m") grown (codes "/m/p/.schain")

abbrev linked : Worktree
linked = record { root = codes "/t"; main = codes "/m" }

report_runs :
    vault_report linked (codes "/m/.schain" ∷ codes "/m/p/.schain" ∷ []) (codes "/t/.schain" ∷ [])
    ≡ (codes ".schain", shadows_main) ∷ (codes "p/.schain", only_main) ∷ []
unfolding vault_report sort_by keys_of rel_path str_eq str_lt
report_runs = refl

vault_report-told_example :
    IsSorted
      (map (λ r. r.0) (vault_report linked (codes "/m/.schain" ∷ []) (codes "/t/.schain" ∷ [])))
    × (count
          (codes ".schain")
          (map (λ r. r.0) (vault_report linked (codes "/m/.schain" ∷ []) (codes "/t/.schain" ∷ [])))
        ≡ (if member (codes ".schain") (places linked.main (codes "/m/.schain" ∷ []))
              || member (codes ".schain") (places linked.root (codes "/t/.schain" ∷ []))
            then 1
            else 0))
    × (lookup
          (codes ".schain")
          (vault_report linked (codes "/m/.schain" ∷ []) (codes "/t/.schain" ∷ []))
        ≡ told
            (member (codes ".schain") (places linked.main (codes "/m/.schain" ∷ [])))
            (member (codes ".schain") (places linked.root (codes "/t/.schain" ∷ []))))
vault_report-told_example =
    vault_report-told linked (codes "/m/.schain" ∷ []) (codes "/t/.schain" ∷ []) (codes ".schain")

scripts-marker_example :
    Assigns
      (with_removal (codes "/tmp/x") (bash_init false (codes "(it's $(x)) ")))
      (codes "(it's $(x)) ")
      (codes "/tmp/x")
    × Assigns
        (zsh_rc (codes "(it's $(x)) ") (codes "/tmp/x") ++ line_end)
        (codes "(it's $(x)) ")
        (codes "/tmp/x")
    × FishShows (fish_init (codes "(it's $(x)) ")) (codes "(it's $(x)) ")
scripts-marker_example = scripts-marker false (codes "(it's $(x)) ") (codes "/tmp/x")

abbrev shell_started : Launch
shell_started = record {
  program = codes "/bin/bash";
  arguments = codes "/bin/bash" ∷ codes "--rcfile" ∷ codes "/tmp/x/bashrc" ∷ [];
  environment =
      codes "B=2"
      ∷ codes "A=1"
      ∷ codes "SCHAIN_KEYS=A"
      ∷ codes "SCHAIN_ACTIVE=/w/.schain"
      ∷ codes "SCHAIN_SHELL=/bin/bash"
      ∷ [];
}

abbrev shell_files : List File
shell_files =
    (codes "/tmp/x/bashrc", with_removal (codes "/tmp/x") (bash_init false (codes "(schain ~) ")))
    ∷ []

shell_runs : enter_shell host opened_chain ≡ ok (shell_started, shell_files)
unfolding enter_shell env exported expands member split lookup secret_environ previous_keys
    entries_valid delete insert contains base_of parent_shell_path join_path build_env all_valid
    kept is_marker injected unmarked shell_entry cut_byte keys_of sort_by str_lt str_eq dir_of join
    rel_path
shell_runs = refl

program_runs : exec_with host opened_chain (codes "p") [] ≡ ok started
unfolding exec_with lookup env exported expands secret_environ previous_keys build_env entries_valid
    all_valid kept is_marker injected unmarked shell_entry split join contains cut_byte member
    keys_of sort_by str_lt delete insert str_eq
program_runs = refl

find_env-enter_shell_example :
    find_env (codes "A") shell_started.environment ≡ find_env (codes "A") started.environment
unfolding str_eq is_marker previous_keys
find_env-enter_shell_example =
    find_env-enter_shell host opened_chain (codes "p") [] [] started shell_started shell_files
      (codes "A") refl program_runs shell_runs refl refl
