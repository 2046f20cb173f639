-- ===== src/Race.antt =====
-- vault.go: several programs that edit the same vault. Each opens the file, edits what it holds, checks
-- in save that the file is still the one it opened, and then replaces it; their steps come in any order.
pub mod Kept
use schain.Prelude.{
  ℕ, ◌≡◌, ◌==◌, Bool, true, false, Option, none, some, List, [], ◌∷◌, if◌then◌else◌,
}
use schain.Prelude.Text.{Bytes}
use schain.Fail.{ok}
use schain.Vault.{Vault}
use schain.Format.{Crypto, open_vault, open_vault_key, new_vault, rekey, check_unchanged, file_of}
use schain.History.Reached.{Edit}

-- A program that has not opened the file; one that holds a vault; and one that save has checked. The
-- file that was opened is kept beside the vault, and whether nobody has written since the check.
pub data Writer : Type 0 where
  away : Writer
  holding : Option Bytes → Vault → Writer
  checked : Option Bytes → Vault → Bool → Writer

-- A write: the file that the writer had opened, the one that it replaced, the one that it wrote, and
-- whether nobody had written between its check and its write.
pub record Save : Type 0 where
  pub opened : Option Bytes
  pub replaced : Option Bytes
  pub written : Bytes
  pub undisturbed : Bool

-- The file, the writers by their number, and the writes so far, the last one first.
pub record System : Type 0 where
  pub file : Option Bytes
  pub writers : ℕ → Writer
  pub saves : List Save

abbrev pub with_writer : ℕ → Writer → (ℕ → Writer) → ℕ → Writer
with_writer i w ws j = if i == j then w else ws j

-- What a write means to a writer that has made its check.
abbrev pub disturb : Writer → Writer
disturb away = away
disturb (holding b v) = holding b v
disturb (checked b v u) = checked b v false

module _ (x : Crypto) where
  -- How a program gets the vault that it holds.
  pub data Opens (file : Option Bytes) (v : Vault) : Type 0 where
    by_passphrase : (pass : Bytes) → open_vault x file pass ≡ ok v → Opens file v
    by_key : (salt key : Bytes) → open_vault_key x file salt key ≡ ok v → Opens file v
    as_new : (salt pass : Bytes) → file ≡ none → new_vault x salt pass ≡ v → Opens file v

  pub data Step (s : System) : System → Type 0 where
    opens :
        (i : ℕ) {v : Vault}
        → Opens s.file v
        → Step s (record s { writers = with_writer i (holding s.file v) s.writers })
    edits :
        (i : ℕ) (w : Vault) {b : Option Bytes} {v : Vault}
        → s.writers i ≡ holding b v
        → Edit v w
        → Step s (record s { writers = with_writer i (holding b w) s.writers })
    rekeys :
        (i : ℕ) (salt pass : Bytes) {b : Option Bytes} {v : Vault}
        → s.writers i ≡ holding b v
        → Step s (record s { writers = with_writer i (holding b (rekey x salt pass v)) s.writers })
    checks :
        (i : ℕ) {b : Option Bytes} {v : Vault}
        → s.writers i ≡ holding b v
        → check_unchanged x false s.file v ≡ ok tt
        → Step s (record s { writers = with_writer i (checked b v true) s.writers })
    writes :
        (i : ℕ) (nonce : Bytes) {b : Option Bytes} {v : Vault} {u : Bool}
        → s.writers i ≡ checked b v u
        → Step s (record {
          file = some (file_of x nonce v);
          writers = with_writer i away (λ j. disturb (s.writers j));
          saves =
              record { opened = b; replaced = s.file; written = file_of x nonce v; undisturbed = u }
              ∷ s.saves;
        })
    leaves : (i : ℕ) → Step s (record s { writers = with_writer i away s.writers })

  pub data Reach (start : Option Bytes) : System → Type 0 where
    first : Reach start (record { file = start; writers = λ i. away; saves = [] })
    later : {s t : System} → Reach start s → Step s t → Reach start t
