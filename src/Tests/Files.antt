-- ===== src/Tests/Files.antt =====
-- The file of a vault (vault.go), with a toy cipher and a payload that is known.
use schain.Prelude.{
  ◌-◌, ◌≡◌, refl, ap, false, none, some, [], ◌∷◌, ◌++◌, arith, length, take, length-append,
  take-append_length,
}
use schain.Prelude.Text.{Bytes, codes}
use schain.Prelude.Dict.{Dict}
use schain.Fail.{ok}
use schain.Vault.{Vault}
use schain.Format.{
  Crypto, save, file_of, open_vault_key, check_unchanged, magic_of, payload, is_empty, put_uint32,
  header,
}
use schain.Format.Layout.{IsSound, Decodes, envelope_of}
use schain.Format.Reopen.{open_vault_key-save}

abbrev pub zeros : Bytes
zeros = 0 ∷ 0 ∷ 0 ∷ 0 ∷ 0 ∷ 0 ∷ 0 ∷ 0 ∷ 0 ∷ 0 ∷ 0 ∷ 0 ∷ 0 ∷ 0 ∷ 0 ∷ 0 ∷ []

abbrev held : Dict Bytes
held = (codes "A", codes "1") ∷ []

abbrev pub vault : Vault
vault = record {
  iters = 600000;
  salt = zeros;
  key = codes "k";
  secrets = held;
  history = [];
  rev = 4;
  stamp = none;
}

abbrev pub toy : Crypto
toy = record {
  derive_key = λ p s n. p;
  seal = λ k n p a. p ++ zeros;
  unseal = λ k n c a. some (take (length c - 16) c);
  sum = λ s. s;
  encode_flat = λ m. codes "flat";
  decode_flat = λ s. some held;
  encode_envelope = λ e. codes "envelope";
  decode_envelope = λ s. some (envelope_of vault);
}

abbrev pub nonce : Bytes
nonce = 1 ∷ 2 ∷ 3 ∷ 4 ∷ 5 ∷ 6 ∷ 7 ∷ 8 ∷ 9 ∷ 10 ∷ 11 ∷ 12 ∷ []

pub toy-IsSound : IsSound toy
toy-IsSound = record {
  unseal-seal = λ k n p a.
      let e : length (p ++ zeros) - 16 ≡ length p = omega (arith, length-append p zeros) in
      rw e (ap some (take-append_length p zeros));
  length-seal = λ k n p a. length-append p zeros;
}

toy-Decodes : Decodes toy vault
toy-Decodes = record { decode-encode_flat = refl; decode-encode_envelope = refl }

abbrev pub vault' : Vault
vault' = record vault { rev = 0; stamp = some (file_of toy nonce vault) }

save_runs : save toy false nonce none vault ≡ ok (vault', file_of toy nonce vault)
unfolding save check_unchanged file_of magic_of payload is_empty header put_uint32
save_runs = refl

open_vault_key-save_example :
    open_vault_key toy (some (file_of toy nonce vault)) zeros (codes "k") ≡ ok vault'
open_vault_key-save_example =
    open_vault_key-save toy false nonce none vault vault' (file_of toy nonce vault) toy-IsSound
      toy-Decodes refl refl (omega arith) (omega arith) save_runs
