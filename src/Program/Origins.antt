-- ===== src/Program/Origins.antt =====
-- main.go: the file that a command's vault comes from, and that its edits keep the digest of it.
use schain.Prelude.{
  ℕ, true, false, ◌≡◌, refl, ap, ◌∙◌, sym, ◌⊎◌, none, some, inl, inr, [], arith, Bool-cases,
  Option-cases,
}
use schain.Prelude.Text.{Bytes, str_eq_sound}
use schain.Fail.{Result, ok, err, ◌>>=◌, >>=-ok, Result-cases}
use schain.Vault.{Vault}
use schain.Format.{
  check_unchanged, new_vault, open_vault, open_vault_key, read_vault_file, read_vault_bytes,
}
use schain.Format.Stamps.{
  sum_of, open_vault-stamp, open_vault_key-stamp, checked_blob, checked_none,
}
use schain.Cache.{try_cache, parse_cache_payload}
use schain.Unlock.{Answers}
use schain.Askpass.{unlock, new_passphrase, ask_passphrase, ask_open}
use schain.Session.{
  Host, asking, open_cached, open_with, unlock_vault, must_find_vault, open_nearest,
}
use schain.Discover.{find_vault}
use schain.Program.{Supplies, is_forced, open_here, create_vault}

module _ (h : Host) where
  -- The vault was opened from the file at the path.
  abbrev pub IsFrom : Bytes → Vault → Type 0
  IsFrom p v = (old : Bytes) × (h.file_at p ≡ some old) × (v.stamp ≡ some (h.crypto.sum old))

  of_file :
      (p : Bytes) (v : Vault)
      → (h.file_at p ≡ none → ⊥)
      → v.stamp ≡ sum_of h.crypto (h.file_at p)
      → IsFrom p v
  of_file p v there e = elim (Option-cases (h.file_at p)) [
    | inl n ↦ absurd (there n)
    | inr (old, q) ↦ (old, q, e ∙ ap (sum_of h.crypto) q)
  ]

  no_open_vault : (pass : Bytes) (v : Vault) → open_vault h.crypto none pass ≡ ok v → ⊥
  unfolding open_vault read_vault_file read_vault_bytes
  no_open_vault pass v e = cc

  no_open_vault_key :
      (salt key : Bytes) (v : Vault) → open_vault_key h.crypto none salt key ≡ ok v → ⊥
  unfolding open_vault_key read_vault_file read_vault_bytes
  no_open_vault_key salt key v e = cc

  open_with-IsFrom : (p pass : Bytes) (v : Vault) → open_with h p pass ≡ ok v → IsFrom p v
  unfolding open_with
  open_with-IsFrom p pass v e =
      of_file p v (λ n. no_open_vault pass v (sym (ap (λ f. open_vault h.crypto f pass) n) ∙ e))
        (open_vault-stamp h.crypto (h.file_at p) pass v e)

  open_key-IsFrom :
      (p salt key : Bytes) (v : Vault)
      → open_vault_key h.crypto (h.file_at p) salt key ≡ ok v
      → IsFrom p v
  open_key-IsFrom p salt key v e =
      of_file p v
        (λ n.
          no_open_vault_key salt key v (sym (ap (λ f. open_vault_key h.crypto f salt key) n) ∙ e))
        (open_vault_key-stamp h.crypto (h.file_at p) salt key v e)

  -- What comes out of the cache was opened by the key that it holds.
  try_cache-opened :
      (load : Result Bytes) (now : ℕ) (open_key : Bytes → Bytes → Result Vault) (v : Vault)
      → (try_cache load now open_key).0 ≡ some v
      → (salt : Bytes) × (key : Bytes) × (open_key salt key ≡ ok v)
  unfolding try_cache
  try_cache-opened (err e) now open_key v h = cc
  try_cache-opened (ok p) now open_key v h = elim (Result-cases (parse_cache_payload p)) [
    | inl (e, q) ↦ absurd (ground (arith, q, h))
    | inr (c, q) ↦ elim (Result-cases (open_key c.salt c.key)) [
      | inl (e, r) ↦ absurd (ground (arith, q, r, h))
      | inr (w, r) ↦ (c.salt, c.key, ground (arith, q, r, h))
    ]
  ]

  open_cached-IsFrom : (p : Bytes) (v : Vault) → open_cached h p ≡ some v → IsFrom p v
  unfolding open_cached
  open_cached-IsFrom p v e =
      let (salt, key, o) =
        try_cache-opened (h.cached_at p) h.now
          (λ salt key. open_vault_key h.crypto (h.file_at p) salt key) v e in
      open_key-IsFrom p salt key v o

  pub unlock_vault-IsFrom :
      (p : Bytes) (answers : Answers) (v : Vault) → (unlock_vault h p answers).0 ≡ ok v → IsFrom p v
  unfolding unlock_vault unlock
  unlock_vault-IsFrom p answers v e = elim (Option-cases (open_cached h p)) [
    | inr (w, q) ↦ open_cached-IsFrom p v (ground (arith, q, e))
    | inl n ↦ elim (Result-cases (ask_passphrase (asking h) p ask_open answers).0) [
      | inl (x, q) ↦ absurd (ground (arith, n, q, e))
      | inr (pass, q) ↦ open_with-IsFrom p pass v (ground (arith, n, q, e))
    ]
  ]

  pub open_nearest-IsFrom :
      (answers : Answers) (v : Vault)
      → (open_nearest h answers >>= λ o. ok o.0) ≡ ok v
      → (p : Bytes) × (must_find_vault h ≡ ok p) × IsFrom p v
  unfolding open_nearest
  open_nearest-IsFrom answers v e =
      let (o, opened, same) = >>=-ok (open_nearest h answers) _ e in
      let (p, found, e₁) = >>=-ok (must_find_vault h) _ opened in
      let (w, got, e₂) = >>=-ok (unlock_vault h p answers).0 _ e₁ in
      (p, found, unlock_vault-IsFrom p answers v (got ∙ first o w p e₂ same))
    where
      first :
          (o : Vault × Bytes) (w : Vault) (p : Bytes)
          → ok (w, p) ≡ ok o
          → ok o.0 ≡ ok v
          → ok w ≡ ok v
      first (a, b) w p c d = ground (arith, c, d)

module _ (h : Host) (s : Supplies) where
  -- The search has found no vault, or not this one.
  abbrev pub IsNew : Bytes → Type 0
  IsNew p = (find_vault h.sys ≡ ok []) ⊎ (find_vault h.sys ≡ ok p → ⊥)

  -- The file that a write replaces has the digest of the one that was opened; or there is none to
  -- replace and none was found; or nothing is checked.
  abbrev pub Replaces : Bytes → Type 0
  Replaces p =
      (is_forced h s ≡ true)
      ⊎ ((IsNew p × (s.later_at p ≡ none))
          ⊎ ((old : Bytes) × (now : Bytes) × (h.file_at p ≡ some old)
              × (s.later_at p ≡ some now)
              × (h.crypto.sum now ≡ h.crypto.sum old)))

  -- What a command has to save: a new vault, or one from the file at the path.
  abbrev pub HasOrigin : Bytes → Vault → Type 0
  HasOrigin p v = ((v.stamp ≡ none) × IsNew p) ⊎ IsFrom h p v

  pub HasOrigin-stamp :
      (p : Bytes) (v w : Vault) → w.stamp ≡ v.stamp → HasOrigin p v → HasOrigin p w
  HasOrigin-stamp p v w e (inl (n, new)) = inl (e ∙ n, new)
  HasOrigin-stamp p v w e (inr (old, q, t)) = inr (old, q, e ∙ t)

  pub check_unchanged-Replaces :
      (p : Bytes) (v : Vault)
      → HasOrigin p v
      → check_unchanged h.crypto (is_forced h s) (s.later_at p) v ≡ ok tt
      → Replaces p
  check_unchanged-Replaces p v o c = elim (Bool-cases (is_forced h s)) [
    | inl y ↦ inl y
    | inr n ↦
        let c' : check_unchanged h.crypto false (s.later_at p) v ≡ ok tt =
          sym (ap (λ b. check_unchanged h.crypto b (s.later_at p) v) n) ∙ c in
        inr (elim (Option-cases (s.later_at p)) [
          | inl e ↦
              let z =
                checked_none h.crypto v
                  (sym (ap (λ l. check_unchanged h.crypto false l v) e) ∙ c') in
              elim o [ inl (y, new) ↦ inl (new, e) | inr (old, q, u) ↦ cc (z, u) ]
          | inr (now, e) ↦
              let (t, stamped, same) =
                checked_blob h.crypto now v
                  (sym (ap (λ l. check_unchanged h.crypto false l v) e) ∙ c') in
              elim o [
                | inl (z, new) ↦ cc (z, stamped)
                | inr (old, q, u) ↦
                    inr (
                      old,
                      now,
                      q,
                      e,
                      str_eq_sound (h.crypto.sum now) t same ∙ first t old stamped u,
                    )
              ]
        ])
  ]
    where
      first :
          (t old : Bytes)
          → v.stamp ≡ some t
          → v.stamp ≡ some (h.crypto.sum old)
          → t ≡ h.crypto.sum old
      first t old a b = ground (arith, a, b)

  pub open_here-HasOrigin :
      (p : Bytes) (answers : Answers) (o : Vault × Answers)
      → open_here h s p answers ≡ ok o
      → HasOrigin p o.0
  unfolding open_here
  open_here-HasOrigin p answers o e =
      let (v, opened, made) = >>=-ok (unlock_vault h p answers).0 _ e in
      let same : v ≡ o.0 = ground (arith, made) in
      rw (← same) (inr (unlock_vault-IsFrom h p answers v opened))

  pub create_vault-HasOrigin :
      (p : Bytes) (answers : Answers) (o : Vault × Answers)
      → IsNew p
      → create_vault h s p answers ≡ ok o
      → HasOrigin p o.0
  unfolding create_vault new_vault
  create_vault-HasOrigin p answers o new e =
      let (pass, typed, made) = >>=-ok (new_passphrase (asking h) p answers).0 _ e in
      let same : new_vault h.crypto s.salt pass ≡ o.0 = ground (arith, made) in
      rw (← same) (inl (refl, new))
