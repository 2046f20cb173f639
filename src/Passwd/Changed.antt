-- ===== src/Passwd/Changed.antt =====
-- main.go: what a change of the passphrase leaves.
use schain.Prelude.{◌≡◌, refl, ap, Bool, false, Option, some, arith, length}
use schain.Prelude.Text.{Bytes, str_eq}
use schain.Fail.{ok, err, bad_passphrase}
use schain.Vault.{Vault}
use schain.Format.{Crypto, open_vault, open_vault_key, rekey}
use schain.Format.Layout.{IsSound, Decodes}
use schain.Format.Reopen.{save_inv}
use schain.Format.Passphrases.{open_vault-save, open_vault_key_stale}
use schain.Passwd.{change_passphrase}

-- After a change of the passphrase the file opens with the new passphrase, to the same secrets and
-- the same history, and a key that was cached with another salt than the new one no longer opens it.
-- The salt and the nonce have their lengths, the cipher keeps its promises, and the JSON of the
-- payload is read back.
pub open_vault-change_passphrase :
    (x : Crypto) (forced : Bool) (salt nonce : Bytes) (before : Option Bytes) (pass : Bytes)
    (v v' : Vault) (out old key : Bytes)
    → IsSound x
    → Decodes x (rekey x salt pass v)
    → length salt ≡ 16
    → length nonce ≡ 12
    → str_eq old salt ≡ false
    → change_passphrase x forced salt nonce before pass v ≡ ok (v', out)
    → (open_vault x (some out) pass ≡ ok v')
      × (v'.secrets ≡ v.secrets)
      × (v'.history ≡ v.history)
      × (open_vault_key x (some out) old key ≡ err bad_passphrase)
unfolding change_passphrase rekey
open_vault-change_passphrase x forced salt nonce before pass v v' out old key sound json s16 n12 ne
      h =
    let w = rekey x salt pass v in
    let (e₁, e₂, l) = save_inv x forced nonce before w v' out h in
    (
      open_vault-save x forced nonce before w v' out pass sound json s16 n12 (omega arith)
          (omega arith) refl h,
      ap (λ u. u.secrets) e₂,
      ap (λ u. u.history) e₂,
      open_vault_key_stale x forced nonce before w v' out old key sound json s16 n12 (omega arith)
          (omega arith) ne h,
    )
