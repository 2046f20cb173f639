-- ===== src/Message.antt =====
-- The texts that the program composes for people: main.go, chain.go, askpass.go, and from vault.go the
-- note on the revisions of a conflict and the label of a revision. They go to standard error or into an
-- error, after `schain: `.
use schain.Prelude.{
  ℕ, ◌-◌, ◌==◌, ◌&&◌, ◌≡◌, refl, ◌↔◌, Bool, true, false, not, Option, none, some, inl, inr, List,
  [], ◌∷◌, ◌++◌, map, arith, if◌then◌else◌, ltb, length, Bool-cases,
}
use schain.Prelude.Text.{Bytes, codes, str_eq, member}
use schain.Prelude.Number.{itoa}
use schain.Fail.{Result, ok, err, ◌>>=◌}
use schain.Vault.{Vault, vault_name}
use schain.Format.{Crypto, open_vault_key}
use schain.Askpass.{Action, ask_open, ask_new}
use schain.Worktree.{Worktree}
use schain.Chain.{Chain, nearest}
use schain.Session.{display, display_dir}

-- The last element, the empty text for none.
unfoldable pub last_path : List Bytes → Bytes
last_path [] = []
last_path (p ∷ []) = p
last_path (p ∷ q ∷ ps) = last_path (q ∷ ps)

-- strings.Join by a comma and a blank
unfoldable pub comma_joined : List Bytes → Bytes
comma_joined [] = []
comma_joined (t ∷ []) = t
comma_joined (t ∷ u ∷ ts) = t ++ (codes ", " ++ comma_joined (u ∷ ts))

module _ (home : Option Bytes) where
  unfoldable pub passphrase_prompt : Bytes → Action → Bytes
  unfolding display
  passphrase_prompt path ask_new = codes "new passphrase for " ++ (display home path ++ codes ": ")
  passphrase_prompt path ask_open = codes "passphrase for " ++ (display home path ++ codes ": ")

  -- noVaultErr, by the active chain
  unfoldable pub no_vault_text : List Bytes → Bytes
  unfolding last_path display
  no_vault_text [] =
      codes "no " ++ (vault_name ++ codes " here or in any parent (create with: schain set KEY)")
  no_vault_text (p ∷ ps) =
      codes "no "
      ++ (vault_name
          ++ (codes " here or in any parent\n(this shell's env came from "
              ++ (display home (last_path (p ∷ ps)) ++ codes "; cd there to manage it)")))

  -- warnForeign: none where it says nothing
  unfoldable pub warn_foreign : List Bytes → Bytes → Option Bytes
  unfolding last_path display member
  warn_foreign [] path = none
  warn_foreign (p ∷ ps) path =
      if member path (p ∷ ps)
      then none
      else some (
          codes "warning: operating on "
          ++ (display home path
              ++ (codes ", but this shell's env came from " ++ display home (last_path (p ∷ ps)))))

  -- warnUnreachable, for the vaults that are out of reach
  unfoldable pub warn_unreachable : Bool → Worktree → List Bytes → Option Bytes
  unfolding display display_dir comma_joined
  warn_unreachable true w ps = none
  warn_unreachable false w [] = none
  warn_unreachable false w (p ∷ ps) = some (
      codes "warning: this worktree is outside "
      ++ (display_dir home w.main
          ++ (codes ", so "
              ++ (itoa (length (p ∷ ps))
                  ++ (codes " vault(s) the main checkout composes with are not in reach: "
                      ++ comma_joined (map (display home) (p ∷ ps)))))))

  -- chainLabel
  unfoldable pub chain_label : Chain → Result Bytes
  unfolding display nearest
  chain_label c = nearest c >>= λ near.
      let n = length c.vaults - 1 in
      ok (
        display home near.1
        ++ (if ltb 0 n then codes " +" ++ (itoa n ++ codes " inherited") else []))

  -- What enterShell says, by the number of keys.
  unfoldable pub entering : Chain → ℕ → Result Bytes
  unfolding chain_label
  entering c n = chain_label c >>= λ label. ok (
      codes "schain: entering shell with env from "
      ++ (label ++ (codes " (" ++ (itoa n ++ codes " keys), exit to leave\n"))))

-- noteTarget, for what isBorrowed says of the path
unfoldable pub note_target : Bool → Bytes → Option Bytes
note_target false path = none
note_target true path = some (
    codes "schain: writing to "
    ++ (path
        ++ codes
            " in the main checkout (shared with every worktree; use --here for a local one)\n"))

-- revNote: the file is read again with the vault's own key.
unfoldable pub rev_note : Crypto → Option Bytes → Vault → Bytes
rev_note x file v = if v.rev == 0 then [] else elim (open_vault_key x file v.salt v.key) [
  | err e ↦ []
  | ok other ↦
      if other.rev == 0
      then []
      else codes " (revision "
        ++ (itoa other.rev ++ (codes ", yours is " ++ (itoa v.rev ++ codes ")")))
]

-- changedBy, from $USER and the name of the host
unfoldable pub changed_by : Bytes → Bytes → Bytes
changed_by user host =
    if not (str_eq user []) && not (str_eq host [])
    then user ++ (codes "@" ++ host)
    else if not (str_eq user [])
    then user
    else host

-- A warning on a foreign vault is given exactly in a schain shell whose chain does not have it.
warn_foreign_iff :
    (home : Option Bytes) (p : Bytes) (ps : List Bytes) (path : Bytes)
    → (warn_foreign home (p ∷ ps) path ≡ none) ↔ (member path (p ∷ ps) ≡ true)
unfolding warn_foreign
warn_foreign_iff home p ps path = elim (Bool-cases (member path (p ∷ ps))) [
  | inl y ↦ (λ h. y, λ h. rw y refl)
  | inr n ↦ (λ h. absurd (ground (arith, n, h)), λ h. cc (n, h))
]
