-- ===== src/Format/Opened.antt =====
-- vault.go: a vault that its passphrase has opened is opened by its key too.
use schain.Prelude.{
  ◌≤◌, ◌≡◌, sym, ap, ◌∙◌, Option, some, inl, inr, arith, length, take, drop, Option-cases,
}
use schain.Prelude.Text.{Bytes, str_eq_refl}
use schain.Fail.{ok, >>=-ok}
use schain.Vault.{Vault}
use schain.Format.{
  Crypto, VaultFile, open_vault, open_vault_key, read_vault_bytes, read_vault_file,
  parse_vault_file, decrypt, decode_payload, opened, min_iters, max_iters,
}

module _ (x : Crypto) where
  decode_payload-parts :
      (f : VaultFile) (key plain : Bytes) (v : Vault)
      → decode_payload x f key plain ≡ ok v
      → (v.salt ≡ f.salt) × (v.iters ≡ f.iters) × (v.key ≡ key)
  unfolding decode_payload opened
  decode_payload-parts f key plain v h = ground (arith, h)

  -- What a vault has from its file and from the key that decrypted it.
  pub decrypt-parts :
      (f : VaultFile) (key : Bytes) (v : Vault)
      → decrypt x f key ≡ ok v
      → (v.salt ≡ f.salt) × (v.iters ≡ f.iters) × (v.key ≡ key)
  unfolding decrypt
  decrypt-parts f key v h = elim (Option-cases (x.unseal key f.nonce f.body f.hdr)) [
    | inl n ↦ cc (rw (decrypt, n) at h)
    | inr (plain, e) ↦ decode_payload-parts f key plain v (rw (decrypt, e) at h)
  ]

  parse_vault_file-salt :
      (blob : Bytes) (f : VaultFile)
      → parse_vault_file x blob ≡ ok f
      → (52 ≤ length blob) × (f.salt ≡ take 16 (drop 12 blob))
  unfolding parse_vault_file
  parse_vault_file-salt blob f h = ground (arith, h)

  read_vault_file-parse :
      (blob : Bytes) (f : VaultFile)
      → read_vault_file x (some blob) ≡ ok f
      → parse_vault_file x blob ≡ ok f
  unfolding read_vault_file read_vault_bytes
  read_vault_file-parse blob f h = ground (arith, h)

  open_vault_key-own :
      (file : Option Bytes) (f : VaultFile) (salt key : Bytes) (v : Vault)
      → read_vault_file x file ≡ ok f
      → salt ≡ f.salt
      → decrypt x f key ≡ ok v
      → open_vault_key x file salt key ≡ ok v
  unfolding open_vault_key
  open_vault_key-own file f salt key v r s d = rw (r, s, str_eq_refl f.salt) d

  pub open_vault-parts :
      (blob pass : Bytes) (v : Vault)
      → open_vault x (some blob) pass ≡ ok v
      → (open_vault_key x (some blob) v.salt v.key ≡ ok v)
        × (v.salt ≡ take 16 (drop 12 blob))
        × (52 ≤ length blob)
        × (v.key ≡ x.derive_key pass v.salt v.iters)
  unfolding open_vault
  open_vault-parts blob pass v h =
      let (f, r, d) = >>=-ok (read_vault_file x (some blob)) _ h in
      let (s, i, k) = decrypt-parts f (x.derive_key pass f.salt f.iters) v d in
      let (l, t) = parse_vault_file-salt blob f (read_vault_file-parse blob f r) in
      (
        ap (open_vault_key x (some blob) v.salt) k
            ∙ open_vault_key-own (some blob) f v.salt (x.derive_key pass f.salt f.iters) v r s d,
        s ∙ t,
        l,
        k ∙ sym (ap (λ t. x.derive_key pass t f.iters) s) ∙ sym (ap (x.derive_key pass v.salt) i),
      )

  parse_vault_file-iters :
      (blob : Bytes) (f : VaultFile)
      → parse_vault_file x blob ≡ ok f
      → (min_iters ≤ f.iters) × (f.iters ≤ max_iters)
  unfolding parse_vault_file
  parse_vault_file-iters blob f h = ground (arith, h)

  pub open_vault-iters :
      (blob pass : Bytes) (v : Vault)
      → open_vault x (some blob) pass ≡ ok v
      → (min_iters ≤ v.iters) × (v.iters ≤ max_iters)
  unfolding open_vault
  open_vault-iters blob pass v h =
      let (f, r, d) = >>=-ok (read_vault_file x (some blob)) _ h in
      let (s, i, k) = decrypt-parts f (x.derive_key pass f.salt f.iters) v d in
      rw i (parse_vault_file-iters blob f (read_vault_file-parse blob f r))
