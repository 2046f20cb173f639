-- ===== src/Program/Seen.antt =====
-- main.go: what `schain exec` shows of what `schain set` has stored.
use schain.Prelude.{
  ℕ, ◌≡◌, refl, ap, ◌∙◌, false, none, some, inl, inr, List, [], ◌∷◌, ◌++◌, length, All,
}
use schain.Prelude.Text.{Bytes, str_eq_refl, contains}
use schain.Prelude.Dict.{lookup, IsMap}
use schain.Fail.{Fail, ok, err}
use schain.Vault.{Vault, Mark, put, reserved, expands}
use schain.Vault.Edits.{lookup-put}
use schain.Format.Layout.{IsSound, Decodes}
use schain.Unlock.{Answers}
use schain.Unlock.Nearest.{load_chain-nearest, unlock_known-typed}
use schain.Chain.{Chain}
use schain.Chain.Nearest.{effective-last}
use schain.Environ.{find_env, previous_keys, is_marker}
use schain.Askpass.{by_terminal, passphrase_source}
use schain.Session.{Host, Launch, doors, open_with, chain_paths, open_chain, cmd_exec}
use schain.Discover.{vault_dirs}
use schain.Session.Child.{seen_by_child, find_env-cmd_exec}
use schain.Assign.Inline.{argument, cmd_set-Stored}
use schain.Program.{Supplies, site, set_here, with_file}
use schain.Program.Opened.{
  IsOpened, open_cached-none, open_here-IsOpened, create_vault-IsOpened, put-IsOpened,
  open_with-stored,
}

lookup-stored :
    (mark : Mark) (k val : Bytes) (v saved : Vault)
    → saved.secrets ≡ (put mark k val v).secrets
    → lookup k saved.secrets ≡ some val
lookup-stored mark k val v saved e =
    ap (lookup k) e ∙ lookup-put mark k val k v ∙ rw (str_eq_refl k) refl

-- The nearest vault of the chain that opens next is the one that was stored.
open_chain-stored :
    (h : Host) (s : Supplies) (pass path : Bytes) (ps : List Bytes) (again : Answers)
    (saved : Vault) (c : Chain) (e : Fail)
    → h.cached_at path ≡ err e
    → passphrase_source h.sys.getenv ≡ by_terminal
    → open_with h path pass ≡ ok saved
    → chain_paths h ≡ ok (path ∷ ps)
    → open_chain h (ok pass ∷ again) ≡ ok c
    → (vs : List Vault) × (c.vaults ≡ vs ++ saved ∷ [])
unfolding open_chain doors
open_chain-stored h s pass path ps again saved c e cached t o paths opened =
    load_chain-nearest (doors h) path ps (vault_dirs h.sys (path ∷ ps)) (ok pass ∷ again) saved c
      (unlock_known-typed (doors h) path pass again saved (open_cached-none h s pass path e cached)
        (rw t refl) o)
      (rw (open_chain, paths) at opened)

-- After `schain set KEY=VALUE`, in an old vault or in a new one, `schain exec` in the same place gives
-- its program KEY with VALUE, whatever the vaults above hold and whatever was in the environment
-- before. Both commands are answered with the one passphrase, at the terminal, and nothing is
-- remembered for the vault, which is the nearest one once it is written. The key is no setting of
-- schain and not a marker, its value is not expanded, the cipher keeps its promises, the JSON of what
-- was saved is read back, and the names that an outer shell had put in can be read.
pub find_env-set_here :
    (h : Host) (s : Supplies) (pass k val path file : Bytes) (saved : Vault) (e : Fail)
    (more again : Answers) (ps : List Bytes) (name : Bytes) (args : List Bytes) (c : Chain)
    (l : Launch) (previous : List Bytes)
    → IsSound h.crypto
    → ((n : ℕ) → Decodes h.crypto (record saved { rev = n }))
    → length s.salt ≡ 16
    → length s.nonce ≡ 12
    → passphrase_source h.sys.getenv ≡ by_terminal
    → h.cached_at path ≡ err e
    → contains k b'=' ≡ false
    → is_marker k ≡ false
    → reserved k ≡ false
    → expands saved k ≡ false
    → set_here h s (argument k val ∷ []) (ok pass ∷ more) ≡ ok (saved, file, path)
    → chain_paths (with_file path file h) ≡ ok (path ∷ ps)
    → open_chain (with_file path file h) (ok pass ∷ again) ≡ ok c
    → All (λ v. IsMap v.secrets) c.vaults
    → previous_keys h.json h.sys.getenv ≡ ok previous
    → cmd_exec (with_file path file h) name args (ok pass ∷ again) ≡ ok l
    → find_env k l.environment ≡ some val
unfolding set_here
find_env-set_here h s pass k val path file saved e more again ps name args c l previous sound json
      s16 n12 t cached eq marker free literal set paths opened maps prev run =
    let h' = with_file path file h in
    let (o, from, stored) =
      cmd_set-Stored h.sys.getenv (site h s) s.mark k val (ok pass ∷ more) saved file path eq set in
    let edited : Vault = put s.mark k val o.0 in
    let first : IsOpened h s pass o.0 = elim from [
      | inl made ↦ create_vault-IsOpened h s pass path more o s16 t made
      | inr unlocked ↦ open_here-IsOpened h s pass path e more o cached t unlocked
    ] in
    let (opens, secrets) =
      open_with-stored h s pass path file edited saved sound json n12
        (put-IsOpened h s pass s.mark k val o.0 first) stored in
    let (vs, last) =
      open_chain-stored h' s pass path ps again saved c e cached t opens paths opened in
    let value = lookup-stored s.mark k val o.0 saved secrets in
    find_env-cmd_exec h' name args (ok pass ∷ again) c l previous k opened maps prev run marker
    ∙ rw (free, last)
        (ap (seen_by_child h' previous k)
          (effective-last h.sys.getenv vs saved c.paths c.dirs k val none value literal))
