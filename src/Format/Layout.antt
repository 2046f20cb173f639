-- ===== src/Format/Layout.antt =====
-- vault.go: the parts of a vault file, put together and taken apart again.
use schain.Prelude.{
  ℕ, ◌+◌, ◌^◌, ◌≤◌, ◌<◌, ◌≡◌, refl, ◌∙◌, Bool, true, false, ◌&&◌, not, some, ◌++◌, arith, length,
  take, drop, length-append, take-append_length, drop-append_length, drop-append_add,
}
use schain.Prelude.Text.{Bytes, str_eq}
use schain.Fail.{ok}
use schain.Vault.{Vault}
use schain.Format.{
  magic, magic2, min_iters, max_iters, Envelope, Crypto, put_uint32, get_uint32, header, VaultFile,
  parse_vault_file,
}

-- What the library promises of the cipher: opening what was sealed with the same key, nonce and data
-- gives the text, and the tag has 16 bytes.
pub record IsSound (x : Crypto) : Type 0 where
  pub unseal-seal : (k n p a : Bytes) → x.unseal k n (x.seal k n p a) a ≡ some p
  pub length-seal : (k n p a : Bytes) → length (x.seal k n p a) ≡ length p + 16

abbrev pub envelope_of : Vault → Envelope
envelope_of v = record { rev = v.rev + 1; secrets = some v.secrets; history = v.history }

-- The JSON of a vault's payload is read back as it was, as it is where every text is valid UTF-8.
pub record Decodes (x : Crypto) (v : Vault) : Type 0 where
  pub decode-encode_flat : x.decode_flat (x.encode_flat v.secrets) ≡ some v.secrets
  pub decode-encode_envelope :
      x.decode_envelope (x.encode_envelope (envelope_of v)) ≡ some (envelope_of v)

abbrev pub word : Bool → Bytes
word true = magic
word false = magic2

get-put_uint32 : (n : ℕ) (s : Bytes) → n < 2 ^ 32 → get_uint32 (put_uint32 n ++ s) ≡ n
unfolding get_uint32 put_uint32
get-put_uint32 n s h = omega arith

module _ (x : Crypto) (b : Bool) (iters : ℕ) (salt nonce body : Bytes) where
  unfoldable pub blob : Bytes
  unfolding header
  blob = header (word b) iters salt ++ (nonce ++ body)

  module _ (s16 : length salt ≡ 16) (n12 : length nonce ≡ 12) where
    take_salt : take 16 (salt ++ (nonce ++ body)) ≡ salt
    take_salt = rw (← s16) (take-append_length salt (nonce ++ body))

    drop_salt : drop 16 (salt ++ (nonce ++ body)) ≡ nonce ++ body
    drop_salt = rw (← s16) (drop-append_length salt (nonce ++ body))

    take_nonce : take 12 (nonce ++ body) ≡ nonce
    take_nonce = rw (← n12) (take-append_length nonce body)

    drop_nonce : drop 12 (nonce ++ body) ≡ body
    drop_nonce = rw (← n12) (drop-append_length nonce body)

    drop_both : drop 28 (salt ++ (nonce ++ body)) ≡ body
    drop_both =
        let e : 28 ≡ length salt + 12 = omega arith in
        rw e (drop-append_add salt (nonce ++ body) 12 ∙ drop_nonce)

abbrev pub laid_out : Crypto → Bool → ℕ → Bytes → Bytes → Bytes → VaultFile
laid_out x b iters salt nonce body = record {
  magic = word b;
  iters = iters;
  salt = salt;
  nonce = nonce;
  body = body;
  hdr = header (word b) iters salt;
  sum = x.sum (blob x b iters salt nonce body);
}

module _ (x : Crypto) (iters : ℕ) (salt nonce body : Bytes) where
  length-blob :
      (b : Bool)
      → length (blob x b iters salt nonce body) ≡ 12 + length salt + length nonce + length body
  unfolding blob header put_uint32
  length-blob true = omega (arith, length-append salt (nonce ++ body), length-append nonce body)
  length-blob false = omega (arith, length-append salt (nonce ++ body), length-append nonce body)

  module _ (s16 : length salt ≡ 16) (n12 : length nonce ≡ 12) (low : min_iters ≤ iters)
      (high : iters ≤ max_iters) (tag : 16 ≤ length body) where
    parts :
        (b : Bool)
        → (take 8 (blob x b iters salt nonce body) ≡ word b)
          × (get_uint32 (drop 8 (blob x b iters salt nonce body)) ≡ iters)
          × (take 16 (drop 12 (blob x b iters salt nonce body)) ≡ salt)
          × (take 12 (drop 28 (blob x b iters salt nonce body)) ≡ nonce)
          × (drop 40 (blob x b iters salt nonce body) ≡ body)
          × (take 28 (blob x b iters salt nonce body) ≡ header (word b) iters salt)
    unfolding blob header put_uint32 get_uint32
    parts true = (
      refl,
      omega arith,
      take_salt x true iters salt nonce body s16 n12,
      rw (drop_salt x true iters salt nonce body s16 n12)
          (take_nonce x true iters salt nonce body s16 n12),
      drop_both x true iters salt nonce body s16 n12,
      rw (take_salt x true iters salt nonce body s16 n12),
    )
    parts false = (
      refl,
      omega arith,
      take_salt x false iters salt nonce body s16 n12,
      rw (drop_salt x false iters salt nonce body s16 n12)
          (take_nonce x false iters salt nonce body s16 n12),
      drop_both x false iters salt nonce body s16 n12,
      rw (take_salt x false iters salt nonce body s16 n12),
    )

    known_magic : (b : Bool) → (not (str_eq (word b) magic) && not (str_eq (word b) magic2)) ≡ false
    unfolding str_eq
    known_magic true = refl
    known_magic false = refl

    pub parse-blob :
        (b : Bool)
        → parse_vault_file x (blob x b iters salt nonce body)
          ≡ ok (laid_out x b iters salt nonce body)
    unfolding parse_vault_file
    parse-blob b =
        let (e₁, e₂, e₃, e₄, e₅, e₆) = parts b in
        ground (arith, e₁, e₂, e₃, e₄, e₅, e₆, known_magic b, length-blob b)
