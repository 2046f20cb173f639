-- ===== src/Format.antt =====
-- vault.go: the file of a vault. What comes from Go's library is the record `Crypto`: PBKDF2, AES-GCM,
-- SHA-256 and the JSON of the two payloads; the random bytes and the file are arguments.
pub mod Reopen
pub mod Passphrases
pub mod Opened
pub mod Layout
pub mod Stamps
use schain.Prelude.{
  ℕ, zero, suc, ◌+◌, ◌*◌, ◌/◌, ◌%◌, ◌^◌, Bool, true, false, ◌&&◌, ◌||◌, not, Option, none, some,
  List, [], ◌∷◌, ◌++◌, if◌then◌else◌, ltb, length, take, drop,
}
use schain.Prelude.Text.{Bytes, codes, str_eq, has_prefix}
use schain.Prelude.Dict.{Dict}
use schain.Fail.{
  Fail, Result, ok, err, ◌>>=◌, not_a_vault, newer_format, too_large, no_such_file, corrupted,
  weak_iters, excessive_iters, bad_passphrase, removed_meanwhile, appeared_meanwhile,
  changed_meanwhile,
}
use schain.Vault.{Vault, Revision}

abbrev pub magic : Bytes
magic = codes "schain1\n"

abbrev pub magic2 : Bytes
magic2 = codes "schain2\n"

abbrev pub magic_len : ℕ
magic_len = 8

abbrev pub salt_len : ℕ
salt_len = 16

abbrev pub nonce_len : ℕ
nonce_len = 12

abbrev pub default_iters : ℕ
default_iters = 600000

abbrev pub min_iters : ℕ
min_iters = 100000

abbrev pub max_iters : ℕ
max_iters = 10000000

abbrev pub max_vault_size : ℕ
max_vault_size = 16777216

-- The payload of schain2; `secrets` is none for an object that has none.
pub record Envelope : Type 0 where
  pub rev : ℕ
  pub secrets : Option (Dict Bytes)
  pub history : Dict (List Revision)

pub record Crypto : Type 0 where
  pub derive_key : Bytes → Bytes → ℕ → Bytes
  -- key, nonce, text, additional data
  pub seal : Bytes → Bytes → Bytes → Bytes → Bytes
  pub unseal : Bytes → Bytes → Bytes → Bytes → Option Bytes
  pub sum : Bytes → Bytes
  pub encode_flat : Dict Bytes → Bytes
  pub decode_flat : Bytes → Option (Dict Bytes)
  pub encode_envelope : Envelope → Bytes
  pub decode_envelope : Bytes → Option Envelope

-- binary.BigEndian.AppendUint32 of uint32(n), and its reading
unfoldable pub put_uint32 : ℕ → Bytes
put_uint32 n = (n / 2 ^ 24 % 2 ^ 8) ∷ (n / 2 ^ 16 % 2 ^ 8) ∷ (n / 2 ^ 8 % 2 ^ 8) ∷ (n % 2 ^ 8) ∷ []

unfoldable pub get_uint32 : Bytes → ℕ
get_uint32 (a ∷ b ∷ c ∷ d ∷ s) = a * 2 ^ 24 + b * 2 ^ 16 + c * 2 ^ 8 + d
get_uint32 s = 0

unfoldable pub header : Bytes → ℕ → Bytes → Bytes
unfolding put_uint32
header m iters salt = m ++ (put_uint32 iters ++ salt)

pub record VaultFile : Type 0 where
  pub magic : Bytes
  pub iters : ℕ
  pub salt : Bytes
  pub nonce : Bytes
  pub body : Bytes
  pub hdr : Bytes
  pub sum : Bytes

-- readVaultBytes, of a file that is read whole; none for no file
unfoldable pub read_vault_bytes : Option Bytes → Result Bytes
read_vault_bytes none = err no_such_file
read_vault_bytes (some blob) = if ltb max_vault_size (length blob) then err too_large else ok blob

unfoldable pub opened : VaultFile → Bytes → Dict Bytes → Dict (List Revision) → ℕ → Vault
opened f key secrets history rev = record {
  iters = f.iters;
  salt = f.salt;
  key = key;
  secrets = secrets;
  history = history;
  rev = rev;
  stamp = some f.sum;
}

unfoldable pub is_empty {ℓ} : {A : Type ℓ} → List A → Bool
is_empty [] = true
is_empty (a ∷ as') = false

unfoldable pub magic_of : Vault → Bytes
unfolding is_empty
magic_of v = if is_empty v.history then magic else magic2

module _ (x : Crypto) where
  unfoldable pub parse_vault_file : Bytes → Result VaultFile
  unfolding get_uint32
  parse_vault_file blob =
      let m = take magic_len blob in
      let iters = get_uint32 (drop magic_len blob) in
      if ltb (length blob) (magic_len + 4 + salt_len + nonce_len + 16)
      then err not_a_vault
      else if not (str_eq m magic) && not (str_eq m magic2)
      then (if has_prefix m (codes "schain") then err newer_format else err not_a_vault)
      else if ltb iters min_iters
      then err (weak_iters iters)
      else if ltb max_iters iters
      then err (excessive_iters iters)
      else ok (record {
        magic = m;
        iters = iters;
        salt = take salt_len (drop (magic_len + 4) blob);
        nonce = take nonce_len (drop (magic_len + 4 + salt_len) blob);
        body = drop (magic_len + 4 + salt_len + nonce_len) blob;
        hdr = take (magic_len + 4 + salt_len) blob;
        sum = x.sum blob;
      })

  unfoldable pub read_vault_file : Option Bytes → Result VaultFile
  unfolding read_vault_bytes
  read_vault_file file = do blob ← read_vault_bytes file; parse_vault_file blob

  unfoldable pub decode_payload : VaultFile → Bytes → Bytes → Result Vault
  unfolding opened
  decode_payload f key plain =
      if str_eq f.magic magic2
      then (elim (x.decode_envelope plain) [
        | none ↦ err corrupted
        | some env ↦ elim env.secrets [
          | none ↦ err corrupted
          | some m ↦ ok (opened f key m env.history env.rev)
        ]
      ])
      else (elim (x.decode_flat plain) [ none ↦ err corrupted | some m ↦ ok (opened f key m [] 0) ])

  unfoldable pub decrypt : VaultFile → Bytes → Result Vault
  unfolding decode_payload
  decrypt f key = elim (x.unseal key f.nonce f.body f.hdr) [
    | none ↦ err bad_passphrase
    | some plain ↦ decode_payload f key plain
  ]

  unfoldable pub open_vault : Option Bytes → Bytes → Result Vault
  unfolding read_vault_file
  open_vault file passphrase = do
    f ← read_vault_file file
    decrypt f (x.derive_key passphrase f.salt f.iters)

  unfoldable pub open_vault_key : Option Bytes → Bytes → Bytes → Result Vault
  unfolding read_vault_file
  open_vault_key file salt key = do
    f ← read_vault_file file
    (if str_eq salt f.salt then decrypt f key else err bad_passphrase)

  -- `salt` is what rand.Read gives.
  unfoldable pub new_vault : Bytes → Bytes → Vault
  new_vault salt passphrase = record {
    iters = default_iters;
    salt = salt;
    key = x.derive_key passphrase salt default_iters;
    secrets = [];
    history = [];
    rev = 0;
    stamp = none;
  }

  unfoldable pub rekey : Bytes → Bytes → Vault → Vault
  rekey salt passphrase v = record v {
    iters = default_iters;
    salt = salt;
    key = x.derive_key passphrase salt default_iters;
  }

  -- `forced` is whether SCHAIN_FORCE is set.
  unfoldable pub check_unchanged : Bool → Option Bytes → Vault → Result (Unit {0})
  unfolding read_vault_bytes
  check_unchanged true file v = ok tt
  check_unchanged false none v = elim v.stamp [ none ↦ ok tt | some s ↦ err removed_meanwhile ]
  check_unchanged false (some blob) v = elim (read_vault_bytes (some blob)) [
    | err e ↦ err e
    | ok fresh ↦ elim v.stamp [
      | none ↦ err appeared_meanwhile
      | some s ↦ if str_eq (x.sum fresh) s then ok tt else err changed_meanwhile
    ]
  ]

  unfoldable pub payload : Vault → Bytes
  unfolding is_empty
  payload v =
      if is_empty v.history
      then x.encode_flat v.secrets
      else x.encode_envelope
          (record { rev = v.rev + 1; secrets = some v.secrets; history = v.history })

  unfoldable pub file_of : Bytes → Vault → Bytes
  unfolding magic_of payload header
  file_of nonce v =
      let hdr = header (magic_of v) v.iters v.salt in
      hdr ++ (nonce ++ x.seal v.key nonce (payload v) hdr)

  -- save: the vault as it is kept in memory, and the new file. `nonce` is what rand.Read gives; the
  -- write of the temporary file and its rename succeed (schain.Write has their failures).
  unfoldable pub save : Bool → Bytes → Option Bytes → Vault → Result (Vault × Bytes)
  save forced nonce file v = elim (check_unchanged forced file v) [
    | err e ↦ err e
    | ok u ↦
        let out = file_of nonce v in
        if ltb max_vault_size (length out)
        then err too_large
        else ok (
          record v { rev = if is_empty v.history then 0 else v.rev + 1; stamp = some (x.sum out) },
          out,
        )
  ]
