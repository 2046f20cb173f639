-- ===== src/Format/Stamps.antt =====
-- The digest that an opened vault keeps of its file, and what the check before a write compares.
use schain.Prelude.{
  ◌≡◌, ◌∙◌, false, Option, none, some, inl, inr, arith, Bool-cases, Option-cases, true,
}
use schain.Prelude.Text.{Bytes, str_eq}
use schain.Fail.{ok, >>=-ok}
use schain.Vault.{Vault}
use schain.Format.{
  Crypto, VaultFile, open_vault, open_vault_key, check_unchanged, read_vault_bytes, read_vault_file,
  parse_vault_file, decrypt, decode_payload, opened,
}

module _ (x : Crypto) where
  abbrev pub sum_of : Option Bytes → Option Bytes
  sum_of none = none
  sum_of (some b) = some (x.sum b)

  decode_payload-stamp :
      (f : VaultFile) (key plain : Bytes) (v : Vault)
      → decode_payload x f key plain ≡ ok v
      → v.stamp ≡ some f.sum
  unfolding decode_payload opened
  decode_payload-stamp f key plain v h = ground (arith, h)

  decrypt-stamp :
      (f : VaultFile) (key : Bytes) (v : Vault) → decrypt x f key ≡ ok v → v.stamp ≡ some f.sum
  unfolding decrypt
  decrypt-stamp f key v h = elim (Option-cases (x.unseal key f.nonce f.body f.hdr)) [
    | inl n ↦ cc (rw (decrypt, n) at h)
    | inr (plain, e) ↦ decode_payload-stamp f key plain v (rw (decrypt, e) at h)
  ]

  read_vault_file-sum :
      (file : Option Bytes) (f : VaultFile)
      → read_vault_file x file ≡ ok f
      → some f.sum ≡ sum_of file
  unfolding read_vault_file read_vault_bytes parse_vault_file
  read_vault_file-sum none f h = cc
  read_vault_file-sum (some blob) f h = ground (arith, h)

  pub open_vault-stamp :
      (file : Option Bytes) (pass : Bytes) (v : Vault)
      → open_vault x file pass ≡ ok v
      → v.stamp ≡ sum_of file
  unfolding open_vault
  open_vault-stamp file pass v h =
      let (f, e, r) = >>=-ok (read_vault_file x file) _ h in
      decrypt-stamp f (x.derive_key pass f.salt f.iters) v r ∙ read_vault_file-sum file f e

  pub open_vault_key-stamp :
      (file : Option Bytes) (salt key : Bytes) (v : Vault)
      → open_vault_key x file salt key ≡ ok v
      → v.stamp ≡ sum_of file
  unfolding open_vault_key
  open_vault_key-stamp file salt key v h =
      let (f, e, r) = >>=-ok (read_vault_file x file) _ h in
      elim (Bool-cases (str_eq salt f.salt)) [
        | inl y ↦ decrypt-stamp f key v (rw y at r) ∙ read_vault_file-sum file f e
        | inr n ↦ cc (rw n at r)
      ]

  -- What a check that passes compares.
  pub checked_blob :
      (blob : Bytes) (v : Vault)
      → check_unchanged x false (some blob) v ≡ ok tt
      → (s : Bytes) × (v.stamp ≡ some s) × (str_eq (x.sum blob) s ≡ true)
  unfolding check_unchanged read_vault_bytes
  checked_blob blob v h = elim (Option-cases v.stamp) [
    | inl n ↦ absurd (ground (arith, n, h))
    | inr (s, e) ↦ (s, e, ground (arith, e, h))
  ]

  pub checked_none : (v : Vault) → check_unchanged x false none v ≡ ok tt → v.stamp ≡ none
  unfolding check_unchanged
  checked_none v h = ground (arith, h)
