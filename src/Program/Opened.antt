-- ===== src/Program/Opened.antt =====
-- main.go and vault.go: a vault that was opened or made with a passphrase, and what is stored of it.
use mathlib.Core.Path.{subst}
use schain.Prelude.{
  ℕ, ◌≡◌, ◌≤◌, refl, sym, ap, ◌∙◌, none, some, inl, inr, [], ◌∷◌, arith, ◌==◌, length, drop,
  length-take, length-drop, Bool-cases, Option-cases,
}
use schain.Prelude.Text.{Bytes, str_eq_refl}
use schain.Fail.{Fail, ok, err, >>=-ok}
use schain.Vault.{Vault, Mark, put, log}
use schain.Format.{
  open_vault, new_vault, read_vault_file, read_vault_bytes, min_iters, max_iters, default_iters,
}
use schain.Format.Layout.{IsSound, Decodes}
use schain.Format.Reopen.{save_inv}
use schain.Format.Passphrases.{open_vault-save}
use schain.Format.Opened.{open_vault-parts, open_vault-iters}
use schain.Unlock.{Answers, prompt}
use schain.Cache.{try_cache}
use schain.Askpass.{
  Action, ask_open, ask_new, by_terminal, passphrase_source, unlock, ask_passphrase, ask_source_of,
  new_passphrase, repeat_of,
}
use schain.Session.{Host, asking, open_cached, open_with, unlock_vault}
use schain.Program.{Supplies, is_forced, store_vault, create_vault, open_here, with_file}

module _ (h : Host) (s : Supplies) (pass : Bytes) where
  -- Opened or made with the passphrase.
  pub record IsOpened (v : Vault) : Type 0 where
    pub key : h.crypto.derive_key pass v.salt v.iters ≡ v.key
    pub length_salt : length v.salt ≡ 16
    pub at_least : min_iters ≤ v.iters
    pub at_most : v.iters ≤ max_iters

  pub open_cached-none :
      (path : Bytes) (e : Fail) → h.cached_at path ≡ err e → open_cached h path ≡ none
  unfolding open_cached try_cache
  open_cached-none path e c = rw (open_cached, try_cache, c) refl

  ask_passphrase-typed :
      (path : Bytes) (action : Action) (more : Answers)
      → passphrase_source h.sys.getenv ≡ by_terminal
      → ask_passphrase (asking h) path action (ok pass ∷ more) ≡ (ok pass, more)
  unfolding ask_passphrase ask_source_of prompt
  ask_passphrase-typed path action more t = rw (ask_passphrase, t) refl

  unlock_vault-typed :
      (path : Bytes) (e : Fail) (more : Answers)
      → h.cached_at path ≡ err e
      → passphrase_source h.sys.getenv ≡ by_terminal
      → unlock_vault h path (ok pass ∷ more) ≡ (open_with h path pass, more)
  unfolding unlock_vault unlock
  unlock_vault-typed path e more c t =
      let asked = ask_passphrase-typed path ask_open more t in
      rw (unlock_vault, unlock, open_cached-none path e c, ap (λ a. a.0) asked, ap (λ a. a.1) asked)
        refl

  open_with-IsOpened : (path : Bytes) (v : Vault) → open_with h path pass ≡ ok v → IsOpened v
  unfolding open_with open_vault read_vault_file read_vault_bytes
  open_with-IsOpened path v o = elim (Option-cases (h.file_at path)) [
    | inl n ↦ cc (rw (open_with, n) at o)
    | inr (blob, b) ↦
        let o' : open_vault h.crypto (some blob) pass ≡ ok v = rw (open_with, b) at o in
        let (again, salt, long, key) = open_vault-parts h.crypto blob pass v o' in
        let (low, high) = open_vault-iters h.crypto blob pass v o' in
        record {
          key = sym key;
          length_salt =
              ap length salt
              ∙ omega (arith, long, length-take 16 (drop 12 blob), length-drop 12 blob);
          at_least = low;
          at_most = high;
        }
  ]

  pub open_here-IsOpened :
      (path : Bytes) (e : Fail) (more : Answers) (o : Vault × Answers)
      → h.cached_at path ≡ err e
      → passphrase_source h.sys.getenv ≡ by_terminal
      → open_here h s path (ok pass ∷ more) ≡ ok o
      → IsOpened o.0
  unfolding open_here
  open_here-IsOpened path e more o c t q =
      let u = unlock_vault-typed path e more c t in
      let (v, opened, made) = >>=-ok (unlock_vault h path (ok pass ∷ more)).0 _ q in
      let same : v ≡ o.0 = ground (arith, made) in
      rw (← same) (open_with-IsOpened path v (sym (ap (λ a. a.0) u) ∙ opened))

  repeat_of-same :
      (p : Bytes) (more : Answers)
      → (repeat_of (asking h) by_terminal pass more).0 ≡ ok p
      → p ≡ pass
  unfolding repeat_of prompt
  repeat_of-same p [] q = cc
  repeat_of-same p (err e ∷ more) q = cc
  repeat_of-same p (ok again ∷ more) q = ground (arith, q)

  new_passphrase-typed :
      (path p : Bytes) (more : Answers)
      → passphrase_source h.sys.getenv ≡ by_terminal
      → (new_passphrase (asking h) path (ok pass ∷ more)).0 ≡ ok p
      → p ≡ pass
  unfolding new_passphrase
  new_passphrase-typed path p more t q =
      let asked = ask_passphrase-typed path ask_new more t in
      let q' = rw (new_passphrase, ap (λ a. a.0) asked, ap (λ a. a.1) asked, t) at q in
      elim (Bool-cases (length pass == 0)) [
        | inl y ↦ cc (rw y at q')
        | inr n ↦ repeat_of-same p more (rw n at q')
      ]

  pub create_vault-IsOpened :
      (path : Bytes) (more : Answers) (o : Vault × Answers)
      → length s.salt ≡ 16
      → passphrase_source h.sys.getenv ≡ by_terminal
      → create_vault h s path (ok pass ∷ more) ≡ ok o
      → IsOpened o.0
  unfolding create_vault new_vault
  create_vault-IsOpened path more o n t q =
      let (p, typed, made) = >>=-ok (new_passphrase (asking h) path (ok pass ∷ more)).0 _ q in
      let same : new_vault h.crypto s.salt p ≡ o.0 = ground (arith, made) in
      rw (← same) (record {
        key =
            ap (λ a. h.crypto.derive_key a s.salt default_iters)
              (sym (new_passphrase-typed path p more t typed));
        length_salt = n;
        at_least = omega arith;
        at_most = omega arith;
      })

module _ (h : Host) (s : Supplies) (pass : Bytes) where
  pub put-IsOpened :
      (mark : Mark) (k val : Bytes) (v : Vault)
      → IsOpened h s pass v
      → IsOpened h s pass (put mark k val v)
  unfolding put log
  put-IsOpened mark k val v o =
      let salt : (put mark k val v).salt ≡ v.salt = ground arith in
      let iters : (put mark k val v).iters ≡ v.iters = ground arith in
      let key : (put mark k val v).key ≡ v.key = ground arith in
      record {
        key = rw (salt, iters, key) o.key;
        length_salt = rw salt o.length_salt;
        at_least = rw iters o.at_least;
        at_most = rw iters o.at_most;
      }

  -- The vault that was stored opens with the passphrase.
  pub open_with-stored :
      (path file : Bytes) (w saved : Vault)
      → IsSound h.crypto
      → ((n : ℕ) → Decodes h.crypto (record saved { rev = n }))
      → length s.nonce ≡ 12
      → IsOpened h s pass w
      → store_vault h s path w ≡ ok (saved, file)
      → (open_with (with_file path file h) path pass ≡ ok saved) × (saved.secrets ≡ w.secrets)
  unfolding store_vault open_with
  open_with-stored path file w saved sound json n12 o e =
      let (whole, same, fits) =
        save_inv h.crypto (is_forced h s) s.nonce (s.later_at path) w saved file e in
      let d = subst (λ u. Decodes h.crypto (record u { rev = w.rev })) same (json w.rev) in
      let decodes : Decodes h.crypto w = record {
        decode-encode_flat = d.decode-encode_flat;
        decode-encode_envelope = d.decode-encode_envelope;
      } in
      (
        rw (open_with, str_eq_refl path)
            (open_vault-save h.crypto (is_forced h s) s.nonce (s.later_at path) w saved file pass
              sound decodes o.length_salt n12 o.at_least o.at_most o.key e),
        ap (λ (v : Vault). v.secrets) same,
      )
