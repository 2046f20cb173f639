-- ===== src/Passwd.antt =====
-- main.go: `schain passwd`, from the vault that is nearest to the file that is written.
pub mod Changed
use schain.Prelude.{Bool, true, false, not, Option, none, some, List, [], ◌∷◌, if◌then◌else◌}
use schain.Prelude.Text.{Bytes, codes, str_eq}
use schain.Fail.{Fail, Result, ok, err, ◌>>=◌}
use schain.Vault.{Vault}
use schain.Format.{Crypto, rekey, save}
use schain.Unlock.{Answers}
use schain.Askpass.{new_passphrase}
use schain.Session.{Host, asking, must_find_vault, unlock_vault}

-- rekey and save; `salt` and `nonce` are what rand.Read gives, `before` is the file.
unfoldable pub change_passphrase :
    Crypto → Bool → Bytes → Bytes → Option Bytes → Bytes → Vault → Result (Vault × Bytes)
change_passphrase x forced salt nonce before pass v =
    save x forced nonce before (rekey x salt pass v)

-- Up to rekey: the path, the vault that was opened and the new passphrase.
unfoldable pub passwd_asked : Host → Answers → Result (Bytes × Vault × Bytes)
passwd_asked h answers = must_find_vault h >>= λ path.
    let (opened, rest) = unlock_vault h path answers in
    opened >>= λ v.
    let (typed, rest') = new_passphrase (asking h) path rest in typed >>= λ pass. ok (path, v, pass)

-- The path, the vault in memory and its file, and the paths whose cached key forgetCache is asked to
-- forget, which comes before the save and whose own error does not count. `later_at` is the files by
-- the time of the save.
unfoldable pub cmd_passwd :
    Host
    → (Bytes → Option Bytes)
    → Bytes
    → Bytes
    → Answers
    → Result (Bytes × Vault × Bytes) × List Bytes
unfolding change_passphrase passwd_asked
cmd_passwd h later_at salt nonce answers = elim (passwd_asked h answers) [
  | err e ↦ (err e, [])
  | ok (path, v, pass) ↦
      let forced = not (str_eq (h.sys.getenv (codes "SCHAIN_FORCE")) []) in
      (
        change_passphrase h.crypto forced salt nonce (later_at path) pass v >>= λ done.
            ok (path, done.0, done.1),
        path ∷ [],
      )
]
