-- ===== src/Tests/Sources.antt =====
-- Passphrases (askpass.go), the keyring (cache_linux.go), the pool of goroutines (chain.go), times to
-- live (main.go), and histories that are shown (history.go).
use schain.Prelude.{
  ℕ, suc, ◌+◌, ◌*◌, ◌≤◌, ◌%◌, ◌≡◌, refl, ◌⊎◌, true, none, some, List, [], ◌∷◌, ◌++◌, map, arith,
  length,
}
use schain.Prelude.Text.{codes, member, contains}
use schain.Prelude.Dict.{has_key}
use schain.Prelude.Number.{pos, itoa, atoi}
use schain.Fail.{ok}
use schain.Vault.{Vault, Mark, put}
use schain.Askpass.{Helper, PassFile, succeeded, first_line, run_askpass, read_passphrase_file}
use schain.Askpass.Sources.{
  IsPassphrase, all_of, run_askpass-IsPassphrase, read_passphrase_file-IsPassphrase,
}
use schain.Cache.{max_ttl, payload_with_expiry, int64_text}
use schain.Keyring.{Kernel, key_desc, cache_store}
use schain.Keyring.Rollback.{Configured, cache_store-Configured}
use schain.Pool.{
  Slot, spawn, held, Step, Run, stop, next, acquire, release, waiting, finished, results,
}
use schain.Pool.Runs.{for_each_lem}
use schain.Remember.{parse_ttl}
use schain.Remember.Bounds.{payload_with_expiry-parse_ttl}
use schain.History.{switch_to}
use schain.History.Shown.{Entry, history_table}
use schain.History.Reached.{here, then_edit, puts, switches, history_table-Edits}
use schain.Tests.Files.{vault}

abbrev helper : Helper
helper = record { output = codes "se" ∷ codes "cret\r\nmore" ∷ []; ending = succeeded }

helper_runs : run_askpass helper ≡ ok (codes "secret")
unfolding run_askpass
helper_runs = refl

run_askpass-IsPassphrase_example :
    (helper.ending ≡ succeeded)
    × (codes "secret" ≡ first_line (all_of helper.output))
    × IsPassphrase (codes "secret")
run_askpass-IsPassphrase_example = run_askpass-IsPassphrase helper (codes "secret") helper_runs

abbrev file : PassFile
file = record {
  opens = true;
  has_stat = true;
  is_regular = true;
  perm = 0x180;
  reads = true;
  content = codes "secret\n";
}

file_runs : read_passphrase_file file ≡ ok (codes "secret")
unfolding read_passphrase_file
file_runs = refl

read_passphrase_file-IsPassphrase_example :
    (file.is_regular ≡ true)
    × (file.perm % 64 ≡ 0)
    × (codes "secret" ≡ first_line file.content)
    × IsPassphrase (codes "secret")
read_passphrase_file-IsPassphrase_example =
    read_passphrase_file-IsPassphrase file (codes "secret") file_runs

abbrev kernel : Kernel
kernel = record {
  add = λ d p. ok 5;
  keyctl = λ c. 13;
  search = λ d. some 5;
  read = λ id. ok (codes "ab:1060");
}

dated : payload_with_expiry 1000 (codes "ab") (pos 60) ≡ ok (codes "ab:1060")
unfolding payload_with_expiry itoa
dated = refl

cache_store-Configured_example :
    Configured
      (key_desc (codes "/a"))
      (codes "ab:1060")
      (pos 60)
      5
      (cache_store kernel 1000 (codes "/a") (codes "ab") (pos 60))
unfolding key_desc contains
cache_store-Configured_example =
    cache_store-Configured kernel 1000 (codes "/a") (codes "ab") (codes "ab:1060") (pos 60) 5 dated
      refl refl

abbrev half_done : List (Slot ℕ ℕ)
half_done = finished 4 ∷ waiting 8 ∷ []

half_done-Run : Run suc 1 2 (spawn (3 ∷ 8 ∷ [])) half_done
unfolding spawn
half_done-Run = next (acquire (omega arith)) (next release stop)

for_each_lem_example :
    (held half_done ≤ 1)
    × (2 ≤ 2 * length {A = ℕ} (3 ∷ 8 ∷ []))
    × (((t : List (Slot ℕ ℕ)) × Step suc 1 half_done t)
        ⊎ (results half_done ≡ some (map suc (3 ∷ 8 ∷ []))))
for_each_lem_example = for_each_lem suc 1 2 (3 ∷ 8 ∷ []) half_done (omega arith) half_done-Run

ttl_runs : parse_ttl (λ s. none) (codes "30") ≡ ok 1800
unfolding parse_ttl atoi
ttl_runs = refl

payload_with_expiry-parse_ttl_example :
    (1 ≤ 1800)
    × (1800 ≤ max_ttl)
    × (payload_with_expiry 1000 (codes "ab") (pos 1800)
        ≡ ok (codes "ab" ++ b':' ∷ int64_text (1000 + 1800)))
payload_with_expiry-parse_ttl_example =
    payload_with_expiry-parse_ttl (λ s. none) (codes "30") 1800 1000 (codes "ab") ttl_runs

abbrev mark : Mark
mark = record { now = pos 7; by = codes "me" }

abbrev edited : Vault
edited = switch_to 1 (put mark (codes "A") (codes "2") vault)

history_table-Edits_example :
    (es : List Entry) × (history_table edited ≡ ok es)
    × (member (codes "A") (map (λ e. e.key) es) ≡ has_key (codes "A") edited.history)
history_table-Edits_example =
    history_table-Edits vault edited (codes "A") refl
      (then_edit (then_edit here (puts mark (codes "A") (codes "2"))) (switches 1))
