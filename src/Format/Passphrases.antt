-- ===== src/Format/Passphrases.antt =====
-- vault.go: which passphrases and which cached keys open the file that save writes.
use schain.Prelude.{◌≤◌, ◌≡◌, ap, ◌∙◌, Bool, false, Option, some, arith, length}
use schain.Prelude.Text.{Bytes, str_eq}
use schain.Fail.{ok, err, bad_passphrase}
use schain.Vault.{Vault}
use schain.Format.{
  min_iters, max_iters, max_vault_size, Crypto, VaultFile, read_vault_bytes, parse_vault_file,
  decrypt, open_vault, open_vault_key, save,
}
use schain.Format.Layout.{IsSound, Decodes}
use schain.Format.Reopen.{saved_file}

-- A saved vault is opened with a passphrase that its key is derived from.
pub open_vault-save :
    (x : Crypto) (forced : Bool) (nonce : Bytes) (before : Option Bytes) (v v' : Vault)
    (out p : Bytes)
    → IsSound x
    → Decodes x v
    → length v.salt ≡ 16
    → length nonce ≡ 12
    → min_iters ≤ v.iters
    → v.iters ≤ max_iters
    → x.derive_key p v.salt v.iters ≡ v.key
    → save x forced nonce before v ≡ ok (v', out)
    → open_vault x (some out) p ≡ ok v'
open_vault-save x forced nonce before v v' out p sound json s16 n12 low high k h =
    let (f, l, parsed, s, i, d) =
      saved_file x forced nonce before v v' out sound json s16 n12 low high h in
    open_by f l parsed d (ap (λ t. x.derive_key p t f.iters) s ∙ ap (x.derive_key p v.salt) i ∙ k)
  where
    open_by :
        (f : VaultFile)
        → length out ≤ max_vault_size
        → parse_vault_file x out ≡ ok f
        → decrypt x f v.key ≡ ok v'
        → x.derive_key p f.salt f.iters ≡ v.key
        → open_vault x (some out) p ≡ ok v'
    open_by f l parsed d e = unfold open_vault read_vault_bytes in ground (arith, l, parsed, d, e)

-- A key with another salt than the file's is refused.
pub open_vault_key_stale :
    (x : Crypto) (forced : Bool) (nonce : Bytes) (before : Option Bytes) (v v' : Vault)
    (out salt key : Bytes)
    → IsSound x
    → Decodes x v
    → length v.salt ≡ 16
    → length nonce ≡ 12
    → min_iters ≤ v.iters
    → v.iters ≤ max_iters
    → str_eq salt v.salt ≡ false
    → save x forced nonce before v ≡ ok (v', out)
    → open_vault_key x (some out) salt key ≡ err bad_passphrase
open_vault_key_stale x forced nonce before v v' out salt key sound json s16 n12 low high k h =
    let (f, l, parsed, s, i, d) =
      saved_file x forced nonce before v v' out sound json s16 n12 low high h in
    refused f l parsed (rw s k)
  where
    refused :
        (f : VaultFile)
        → length out ≤ max_vault_size
        → parse_vault_file x out ≡ ok f
        → str_eq salt f.salt ≡ false
        → open_vault_key x (some out) salt key ≡ err bad_passphrase
    refused f l parsed e = unfold open_vault_key read_vault_bytes in ground (arith, l, parsed, e)
