-- ===== src/Tests/Disks.antt =====
-- A save as it changes a disk and several programs that take turns (vault.go), and a vault that is
-- remembered (main.go, cache.go, cache_linux.go).
use schain.Prelude.{◌≡◌, refl, true, false, none, some, [], ◌∷◌, ◌++◌, arith, All, if◌then◌else◌}
use schain.Prelude.Text.{Bytes, codes, str_eq, contains}
use schain.Prelude.Paths.{join_path, dir_of}
use schain.Prelude.Number.{pos, itoa}
use schain.Prelude.Hex.{IsByte}
use schain.Fail.{ok}
use schain.Prelude.Dict.{lookup}
use schain.Vault.{Vault, Mark, put, log, keep, reserved}
use schain.Format.{
  Crypto, file_of, open_vault, parse_vault_file, decrypt, check_unchanged, magic_of, payload,
  is_empty, put_uint32, header, new_vault,
}
use schain.Write.{Volume, replay, Calls, temp_path, save_file}
use schain.Write.Filled.{Runs}
use schain.Write.Atomic.{save_file-IsAtomic}
use schain.Write.Others.{replay-save_file}
use schain.History.Reached.{puts}
use schain.Race.{
  away, holding, checked, System, with_writer, disturb, as_new, opens, edits, checks, writes, Reach,
  first, later,
}
use schain.Race.Kept.{IsChain, IsKept, Reach-IsKept}
use schain.Cache.{payload_with_expiry, cache_payload}
use schain.Keyring.{Kernel, key_desc, cache_load}
use schain.Session.{Host, open_with, unlock_vault}
use schain.Session.Remembered.{DerivesKeys, unlock_vault-remembered}
use schain.Tests.Files.{zeros, toy, nonce, vault}
use schain.Tests.Hosts.{host}

abbrev path : Bytes
path = codes "/w/.schain"

-- A disk with one other file, and calls that all succeed.
abbrev disk : Volume
disk q =
    if str_eq (codes "/w/a") q
    then some (record { content = codes "x"; is_synced = true })
    else none

abbrev smooth : Calls
smooth = record {
  makes_dir = true;
  temp = some (codes "1");
  takes = 1000;
  syncs = true;
  closes = true;
  renames = true;
  removes = true;
}

apart : str_eq (temp_path path (codes "1")) path ≡ false
unfolding temp_path str_eq join_path dir_of
apart = refl

fresh : disk (temp_path path (codes "1")) ≡ none
unfolding temp_path str_eq join_path dir_of
fresh = refl

save_file-IsAtomic_example :
    Runs path
      (disk path)
      (file_of toy nonce vault)
      (save_file toy smooth false nonce path disk vault)
      disk
save_file-IsAtomic_example = save_file-IsAtomic toy smooth false nonce path disk vault apart

other : str_eq path (codes "/w/a") ≡ false
unfolding str_eq
other = refl

replay-save_file_example :
    replay (save_file toy smooth false nonce path disk vault).1 disk (codes "/w/a")
    ≡ disk (codes "/w/a")
replay-save_file_example =
    replay-save_file toy smooth false nonce path (codes "/w/a") disk vault other refl fresh

-- Two programs find no file; one checks, the other writes its edit, and then the first one writes.
abbrev blank : Vault
blank = new_vault toy zeros (codes "k")

abbrev mark : Mark
mark = record { now = pos 7; by = codes "me" }

abbrev edited : Vault
edited = put mark (codes "A") (codes "2") blank

abbrev s₀ : System
s₀ = record { file = none; writers = λ i. away; saves = [] }

abbrev s₁ : System
s₁ = record s₀ { writers = with_writer 1 (holding none blank) s₀.writers }

abbrev s₂ : System
s₂ = record s₁ { writers = with_writer 0 (holding none blank) s₁.writers }

abbrev s₃ : System
s₃ = record s₂ { writers = with_writer 0 (holding none edited) s₂.writers }

abbrev s₄ : System
s₄ = record s₃ { writers = with_writer 1 (checked none blank true) s₃.writers }

abbrev s₅ : System
s₅ = record s₄ { writers = with_writer 0 (checked none edited true) s₄.writers }

abbrev s₆ : System
s₆ = record {
  file = some (file_of toy nonce edited);
  writers = with_writer 0 away (λ j. disturb (s₅.writers j));
  saves =
      record {
        opened = none;
        replaced = none;
        written = file_of toy nonce edited;
        undisturbed = true;
      }
      ∷ [];
}

abbrev s₇ : System
s₇ = record {
  file = some (file_of toy nonce blank);
  writers = with_writer 1 away (λ j. disturb (s₆.writers j));
  saves =
      record {
        opened = none;
        replaced = some (file_of toy nonce edited);
        written = file_of toy nonce blank;
        undisturbed = false;
      }
      ∷ s₆.saves;
}

turns : Reach toy none s₇
unfolding check_unchanged new_vault put lookup log keep reserved str_eq
turns =
    later
      (later
        (later
          (later
            (later
              (later (later first (opens 1 (as_new zeros (codes "k") refl refl)))
                (opens 0 (as_new zeros (codes "k") refl refl)))
              (edits 0 edited refl (puts mark (codes "A") (codes "2"))))
            (checks 1 refl refl))
          (checks 0 refl refl))
        (writes 0 nonce refl))
      (writes 1 nonce refl)

Reach-IsKept_example : IsChain none s₇.file s₇.saves × All IsKept s₇.saves
Reach-IsKept_example = Reach-IsKept toy (λ a b e. e) turns

-- A key of 32 bytes, whatever the passphrase is.
abbrev steady : Crypto
steady = record toy { derive_key = λ p s n. zeros ++ zeros }

steady-DerivesKeys : DerivesKeys steady
steady-DerivesKeys = record {
  length-derive_key = λ p s n. refl;
  derive_key-IsByte = λ p s n. ground arith;
}

abbrev kept : Vault
kept = record vault { key = zeros ++ zeros; rev = 0; stamp = none }

abbrev blob : Bytes
blob = file_of steady nonce kept

abbrev reopened : Vault
reopened = record kept { stamp = some blob }

abbrev remembered : Bytes
remembered = cache_payload zeros (zeros ++ zeros) ++ codes ":1060"

abbrev keyring : Kernel
keyring = record {
  add = λ d p. ok 5;
  keyctl = λ c. 0;
  search = λ d. some 5;
  read = λ id. ok remembered;
}

abbrev later_host : Host
later_host = record host {
  crypto = steady;
  file_at = λ p. some blob;
  cached_at = λ p. cache_load keyring p;
  now = 1030;
}

blob-IsByte : All IsByte blob
unfolding file_of magic_of payload is_empty header put_uint32
blob-IsByte = ground arith

opened_runs : open_with later_host path (codes "k") ≡ ok reopened
unfolding open_with open_vault file_of magic_of payload is_empty header put_uint32 parse_vault_file
    decrypt str_eq
opened_runs = refl

stored : payload_with_expiry 1000 (cache_payload zeros (zeros ++ zeros)) (pos 60) ≡ ok remembered
unfolding payload_with_expiry itoa
stored = refl

no_nul : contains (key_desc path) 0 ≡ false
unfolding contains key_desc
no_nul = refl

unlock_vault-remembered_example : unlock_vault later_host path [] ≡ (ok reopened, [])
unlock_vault-remembered_example =
    unlock_vault-remembered later_host keyring path blob (codes "k") remembered 5 1000 60 reopened
      [] steady-DerivesKeys refl blob-IsByte opened_runs stored (omega arith) refl no_nul refl refl
      refl
