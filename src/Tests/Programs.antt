-- ===== src/Tests/Programs.antt =====
-- Whole commands, one after another (main.go).
use schain.Prelude.{ℕ, ◌≡◌, refl, true, false, none, some, List, [], ◌∷◌}
use schain.Prelude.Text.{Bytes, codes, str_eq, contains, member, cut_byte}
use schain.Prelude.Number.{pos}
use schain.Prelude.Dict.{Dict, IsMap, lookup, insert, delete, has_key, keys_of}
use schain.Prelude.Paths.{dir_of, join_path}
use schain.Prelude.Split.{split, join}
use schain.Prelude.Sort.{sort_by, str_lt}
use schain.Fail.{ok, io_error}
use schain.Vault.{Vault, Mark, put, log, keep, reserved, expands}
use schain.Worktree.{find_worktree}
use schain.Discover.{find_vaults, find_vault, vault_dirs}
use schain.Unlock.{load_chain, unlock_known}
use schain.Format.{
  Crypto, file_of, save, open_vault, parse_vault_file, decrypt, check_unchanged, is_empty, magic_of,
  payload, header, put_uint32,
}
use schain.Format.Layout.{IsSound, Decodes}
use schain.Chain.{Chain, env, exported}
use schain.Environ.{
  find_env, previous_keys, is_marker, secret_environ, build_env, entries_valid, all_valid, kept,
  injected, unmarked, shell_entry,
}
use schain.Askpass.{by_terminal, passphrase_source, unlock}
use schain.Session.{
  Host, Launch, chain_paths, open_chain, cmd_exec, doors, unlock_vault, open_cached, open_with,
}
use schain.Walk.{Node, folder, childless}
use schain.Assign.Inline.{argument}
use schain.Program.{Supplies, open_here, store_vault, set_here, with_file}
use schain.Program.Seen.{find_env-set_here}
use schain.Tests.Files.{zeros, toy, toy-IsSound, nonce, vault}
use schain.Tests.Hosts.{host}

abbrev path : Bytes
path = codes "/w/.schain"

abbrev mark : Mark
mark = record { now = pos 7; by = codes "me" }

abbrev changed : Vault
changed = put mark (codes "A") (codes "2") vault

abbrev first_of : Bytes → ℕ
first_of [] = 0
first_of (n ∷ s) = n

abbrev value_of : Dict Bytes → Bytes
value_of [] = []
value_of ((k, val) ∷ m) = val

-- A cipher whose JSON keeps the value of the one key, and of a payload with a history the revision.
abbrev cipher : Crypto
cipher = record toy {
  encode_flat = value_of;
  decode_flat = λ s. some ((codes "A", s) ∷ []);
  encode_envelope = λ e. e.rev ∷ [];
  decode_envelope = λ s.
      some (record { rev = first_of s; secrets = some changed.secrets; history = changed.history });
}

abbrev first_file : Bytes
first_file = file_of cipher nonce vault

-- The vault as it is opened, and with A=2.
abbrev opened : Vault
opened = record vault { rev = 0; stamp = some first_file }

abbrev edited : Vault
edited = put mark (codes "A") (codes "2") opened

abbrev before : Host
before = record host { crypto = cipher; file_at = λ p. some first_file; environ = codes "A=0" ∷ [] }

abbrev childless_folder : Node
childless_folder = folder childless

abbrev supplies : Supplies
supplies = record {
  salt = zeros;
  nonce = nonce;
  mark = mark;
  keeper = record {
    store = λ p b n. none;
    forget = λ p. true;
    disk = record { tree = λ p. childless_folder; lstat = λ p. false };
    parse_duration = λ s. none;
  };
  tty = false;
  later_at = before.file_at;
}

abbrev written : Bytes
written = file_of cipher nonce edited

abbrev saved : Vault
saved = record edited { rev = 1; stamp = some written }

set_runs :
    set_here before supplies (argument (codes "A") (codes "2") ∷ []) (ok (codes "k") ∷ [])
    ≡ ok (saved, written, path)
unfolding set_here find_vault dir_of find_worktree open_here unlock_vault unlock open_cached
    open_with open_vault file_of parse_vault_file decrypt store_vault save check_unchanged put
    lookup log keep reserved str_eq is_empty magic_of payload header put_uint32 insert contains
set_runs = refl

abbrev after : Host
after = with_file path written before

found : chain_paths after ≡ ok (path ∷ [])
unfolding chain_paths find_vaults str_eq dir_of join_path find_worktree
found = refl

abbrev opened_chain : Chain
opened_chain = record { vaults = saved ∷ []; paths = path ∷ []; dirs = codes "/w" ∷ [] }

opens : open_chain after (ok (codes "k") ∷ []) ≡ ok opened_chain
unfolding open_chain file_of magic_of payload is_empty header put_uint32 find_vaults str_eq dir_of
    join_path find_worktree load_chain unlock_known doors open_cached passphrase_source open_with
    open_vault parse_vault_file decrypt lookup vault_dirs put log keep reserved insert
opens = refl

abbrev started : Launch
started = record {
  program = codes "/bin/p";
  arguments = codes "p" ∷ [];
  environment = codes "A=2" ∷ codes "SCHAIN_KEYS=A" ∷ codes "SCHAIN_ACTIVE=/w/.schain" ∷ [];
}

exec_runs : cmd_exec after (codes "p") [] (ok (codes "k") ∷ []) ≡ ok started
unfolding cmd_exec open_chain file_of magic_of payload is_empty header put_uint32 find_vaults str_eq
    dir_of join_path find_worktree load_chain unlock_known doors open_cached passphrase_source
    open_with open_vault parse_vault_file decrypt lookup vault_dirs env exported expands
    secret_environ previous_keys build_env entries_valid all_valid kept is_marker injected unmarked
    shell_entry split join contains cut_byte member keys_of sort_by str_lt delete insert put log
    keep reserved
exec_runs = refl

cipher-IsSound : IsSound cipher
cipher-IsSound = record {
  unseal-seal = toy-IsSound.unseal-seal;
  length-seal = toy-IsSound.length-seal;
}

cipher-Decodes : (n : ℕ) → Decodes cipher (record saved { rev = n })
unfolding put lookup log keep reserved str_eq insert
cipher-Decodes n = record { decode-encode_flat = refl; decode-encode_envelope = refl }

no_equals : contains (codes "A") b'=' ≡ false
unfolding contains
no_equals = refl

free : reserved (codes "A") ≡ false
unfolding reserved str_eq
free = refl

no_marker : is_marker (codes "A") ≡ false
unfolding is_marker str_eq
no_marker = refl

literal : expands saved (codes "A") ≡ false
unfolding expands put lookup log keep reserved str_eq insert member split
literal = refl

terminal : passphrase_source after.sys.getenv ≡ by_terminal
unfolding passphrase_source str_eq
terminal = refl

no_previous : previous_keys before.json before.sys.getenv ≡ ok []
unfolding previous_keys str_eq
no_previous = refl

one_key : IsMap saved.secrets
unfolding put lookup log keep reserved str_eq insert has_key
one_key = (refl, tt)

find_env-set_here_example : find_env (codes "A") started.environment ≡ some (codes "2")
find_env-set_here_example =
    find_env-set_here before supplies (codes "k") (codes "A") (codes "2") path written saved
      io_error [] [] [] (codes "p") [] opened_chain started [] cipher-IsSound cipher-Decodes refl
      refl terminal refl no_equals no_marker free literal set_runs found opens (one_key, tt)
      no_previous exec_runs

-- The same command by its arguments.
abbrev words : List Bytes
words = codes "set" ∷ argument (codes "A") (codes "2") ∷ []
