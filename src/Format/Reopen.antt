-- ===== src/Format/Reopen.antt =====
-- A saved file is read back.
use schain.Prelude.{
  ◌+◌, ◌≤◌, ◌≡◌, refl, sym, ap, ◌∙◌, Bool, true, false, not, Option, some, inl, inr, List, [], ◌∷◌,
  ◌++◌, arith, if◌then◌else◌, length, Bool-cases,
}
use schain.Prelude.Text.{Bytes, str_eq, str_eq_refl}
use schain.Prelude.Dict.{Dict}
use schain.Fail.{ok, Result-cases}
use schain.Vault.{Vault, Revision}
use schain.Format.{
  magic, magic2, min_iters, max_iters, max_vault_size, Crypto, header, VaultFile, read_vault_bytes,
  parse_vault_file, decode_payload, decrypt, open_vault_key, is_empty, magic_of, payload, file_of,
  save, check_unchanged,
}
use schain.Format.Layout.{IsSound, Decodes, word, blob, laid_out, parse-blob}

module _ (x : Crypto) (sound : IsSound x) (nonce : Bytes) (v : Vault) (json : Decodes x v) where
  sealed : Bytes
  sealed = x.seal v.key nonce (payload x v) (header (magic_of v) v.iters v.salt)

  magic_of-word : magic_of v ≡ word (is_empty v.history)
  unfolding magic_of is_empty
  magic_of-word = go v.history
    where
      go : (h : Dict (List Revision)) → (if is_empty h then magic else magic2) ≡ word (is_empty h)
      go [] = refl
      go (r ∷ h) = refl

  file_of-blob : file_of x nonce v ≡ blob x (is_empty v.history) v.iters v.salt nonce sealed
  unfolding file_of blob sealed
  file_of-blob =
      ap
        (λ m.
          header m v.iters v.salt
          ++ (nonce ++ x.seal v.key nonce (payload x v) (header (magic_of v) v.iters v.salt)))
        magic_of-word

  abbrev saved : Vault
  saved = record v {
    rev = if is_empty v.history then 0 else v.rev + 1;
    stamp = some (x.sum (file_of x nonce v));
  }

  file : VaultFile
  file = laid_out x (is_empty v.history) v.iters v.salt nonce sealed

  is_empty-nil : (h : Dict (List Revision)) → is_empty h ≡ true → h ≡ []
  unfolding is_empty
  is_empty-nil [] e = refl
  is_empty-nil (r ∷ h) e = cc

  word_test : (b : Bool) → str_eq (word b) magic2 ≡ not b
  unfolding str_eq
  word_test true = refl
  word_test false = refl

  stamp_lem : some file.sum ≡ saved.stamp
  unfolding file
  stamp_lem = ap (λ t. some (x.sum t)) (sym file_of-blob)

  decode-file : decode_payload x file v.key (payload x v) ≡ ok saved
  unfolding decode_payload file payload
  decode-file = elim (Bool-cases (is_empty v.history)) [
    | inl e ↦ ground (
      arith,
      e,
      is_empty-nil v.history e,
      word_test (is_empty v.history),
      json.decode-encode_flat,
      file_of-blob,
    )
    | inr e ↦
        ground (arith, e, word_test (is_empty v.history), json.decode-encode_envelope, file_of-blob)
  ]

  decrypt-file : decrypt x file v.key ≡ ok saved
  unfolding decrypt
  decrypt-file = ground (arith, decode-file, unsealed)
    where
      unsealed : x.unseal v.key file.nonce file.body file.hdr ≡ some (payload x v)
      unsealed =
          unfold file sealed in
          rw (← magic_of-word)
            (sound.unseal-seal v.key nonce (payload x v) (header (magic_of v) v.iters v.salt))

  module _ (s16 : length v.salt ≡ 16) (n12 : length nonce ≡ 12) (low : min_iters ≤ v.iters)
      (high : v.iters ≤ max_iters) where
    parse-file : parse_vault_file x (file_of x nonce v) ≡ ok file
    unfolding file
    parse-file = rw file_of-blob (
        parse-blob x v.iters v.salt nonce sealed s16 n12 low high
          (unfold sealed in
            omega (
              arith,
              sound.length-seal v.key nonce (payload x v) (header (magic_of v) v.iters v.salt),
            ))
          (is_empty v.history))

pub save_inv :
    (x : Crypto) (forced : Bool) (nonce : Bytes) (before : Option Bytes) (v v' : Vault)
    (out : Bytes)
    → save x forced nonce before v ≡ ok (v', out)
    → (out ≡ file_of x nonce v)
      × (v' ≡ record v {
        rev = if is_empty v.history then 0 else v.rev + 1;
        stamp = some (x.sum (file_of x nonce v));
      })
      × (length (file_of x nonce v) ≤ max_vault_size)
unfolding save
save_inv x forced nonce before v v' out h =
    elim (Result-cases (check_unchanged x forced before v)) [
      | inl (e, q) ↦ absurd (ground (arith, h, q))
      | inr (u, q) ↦ (ground (arith, h, q), ground (arith, h, q), ground (arith, h, q))
    ]

open_file :
    (x : Crypto) (out key : Bytes) (f : VaultFile) {v : Vault}
    → length out ≤ max_vault_size
    → parse_vault_file x out ≡ ok f
    → decrypt x f key ≡ ok v
    → open_vault_key x (some out) f.salt key ≡ ok v
unfolding open_vault_key read_vault_bytes
open_file x out key f l p d = ground (arith, l, p, d, str_eq_refl f.salt)

-- A vault that was saved is opened again with its key as the vault that save leaves in memory: its
-- secrets, history, revision and stamp. The salt and the nonce have their lengths, the iteration count
-- is one that a vault may have, the cipher keeps its promises, and the JSON of the payload is read back.
pub open_vault_key-save :
    (x : Crypto) (forced : Bool) (nonce : Bytes) (before : Option Bytes) (v v' : Vault)
    (out : Bytes)
    → IsSound x
    → Decodes x v
    → length v.salt ≡ 16
    → length nonce ≡ 12
    → min_iters ≤ v.iters
    → v.iters ≤ max_iters
    → save x forced nonce before v ≡ ok (v', out)
    → open_vault_key x (some out) v.salt v.key ≡ ok v'
unfolding file
open_vault_key-save x forced nonce before v v' out sound json s16 n12 low high h =
    let (e₁, e₂, l) = save_inv x forced nonce before v v' out h in
    rw (e₁, e₂)
      (open_file x (file_of x nonce v) v.key (file x sound nonce v json) l
        (parse-file x sound nonce v json s16 n12 low high) (decrypt-file x sound nonce v json))

-- The file that save writes is read as one that the vault's key decrypts.
pub saved_file :
    (x : Crypto) (forced : Bool) (nonce : Bytes) (before : Option Bytes) (v v' : Vault)
    (out : Bytes)
    → IsSound x
    → Decodes x v
    → length v.salt ≡ 16
    → length nonce ≡ 12
    → min_iters ≤ v.iters
    → v.iters ≤ max_iters
    → save x forced nonce before v ≡ ok (v', out)
    → (f : VaultFile) × (length out ≤ max_vault_size)
      × (parse_vault_file x out ≡ ok f)
      × (f.salt ≡ v.salt)
      × (f.iters ≡ v.iters)
      × (decrypt x f v.key ≡ ok v')
saved_file x forced nonce before v v' out sound json s16 n12 low high h =
    let (e₁, e₂, l) = save_inv x forced nonce before v v' out h in
    (
      file x sound nonce v json,
      rw e₁ l,
      rw e₁ (parse-file x sound nonce v json s16 n12 low high),
      unfold file in refl,
      unfold file in refl,
      decrypt-file x sound nonce v json ∙ ap ok (sym (unfold file in e₂)),
    )
