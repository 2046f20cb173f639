-- ===== src/Assign.antt =====
-- main.go: `schain set`, from its arguments to the vault that it saves. What the terminal answers is a
-- list; the file system and the ways to open a vault are an argument.
pub mod Values
pub mod Inline
use schain.Prelude.{
  Bool, true, false, ◌&&◌, ◌||◌, not, Option, none, some, List, [], ◌∷◌, if◌then◌else◌,
}
use schain.Prelude.Text.{Bytes, codes, str_eq, has_prefix, contains, cut_byte}
use schain.Prelude.Paths.{join_path}
use schain.Fail.{
  Fail, Result, ok, err, ◌>>=◌, usage, contradicting, bad_key, bad_flag, never_exported, comma_key,
}
use schain.Vault.{vault_name, Vault, Mark, reserved, comma, put, set_expand}
use schain.Expand.{check_expand}
use schain.Unlock.{Answers, prompt}

pub record SetFlags : Type 0 where
  pub here : Bool
  pub expand : Bool
  pub literal : Bool

unfoldable pub set_flag : Bytes → SetFlags → Option SetFlags
unfolding str_eq
set_flag a f =
    if str_eq a (codes "--here") || str_eq a (codes "--local")
    then some (record f { here = true })
    else if str_eq a (codes "--expand")
    then some (record f { expand = true })
    else if str_eq a (codes "--no-expand")
    then some (record f { literal = true })
    else none

-- The flags in front of the keys.
unfoldable pub set_flags : SetFlags → List Bytes → Result (SetFlags × List Bytes)
unfolding set_flag has_prefix
set_flags f [] = ok (f, [])
set_flags f (a ∷ args) = elim (has_prefix a (codes "--")) [
  | true ↦ elim (set_flag a f) [ none ↦ err usage | some g ↦ set_flags g args ]
  | false ↦ ok (f, a ∷ args)
]

-- strings.Cut at the first `=`
unfoldable pub key_value : Bytes → Bytes × Option Bytes
unfolding cut_byte
key_value arg = elim (cut_byte arg b'=') [ none ↦ (arg, none) | some (k, val) ↦ (k, some val) ]

unfoldable pub set_key : Mark → SetFlags → Bytes → Bytes → Vault → Vault
set_key mark f k val v =
    if f.expand || f.literal then set_expand k f.expand (put mark k val v) else put mark k val v

module _ (getenv : Bytes → Bytes) where
  -- The body of the loop that looks at the keys before anything is unlocked.
  unfoldable pub vet_key : Bool → Bytes → Bytes × Option Bytes → Result (Unit {0})
  unfolding has_prefix contains reserved
  vet_key expand arg (k, inline) =
      if str_eq k [] || contains k 0
      then err (bad_key arg)
      else if has_prefix k (codes "-")
      then err (bad_flag k)
      else if not expand
      then ok tt
      else if reserved k
      then err (never_exported k)
      else if contains k comma
      then err (comma_key k)
      else elim inline [ none ↦ ok tt | some val ↦ check_expand getenv k val ]

  unfoldable pub vet_keys : Bool → List Bytes → Result (Unit {0})
  unfolding vet_key key_value
  vet_keys expand [] = ok tt
  vet_keys expand (arg ∷ args) = vet_key expand arg (key_value arg) >>= λ u. vet_keys expand args

  -- A value that was typed is vetted once it is there.
  unfoldable pub vet_typed : Bool → Bytes → Bytes → Result (Unit {0})
  vet_typed expand k val = if expand then check_expand getenv k val else ok tt

  -- The loop that writes, with the answers that are left.
  unfoldable pub set_keys :
      Mark → SetFlags → List Bytes → Answers → Vault → Result (Vault × Answers)
  unfolding key_value set_key vet_typed prompt
  set_keys mark f [] answers v = ok (v, answers)
  set_keys mark f (arg ∷ args) answers v =
      let (k, inline) = key_value arg in
      elim inline [
        | some val ↦ set_keys mark f args answers (set_key mark f k val v)
        | none ↦
            let (typed, rest) = prompt answers in
            elim typed [
              | err e ↦ err e
              | ok val ↦ elim (vet_typed f.expand k val) [
                | err e ↦ err e
                | ok u ↦ set_keys mark f args rest (set_key mark f k val v)
              ]
            ]
      ]

-- findVault (the empty text for no vault), workDir, newPassphrase with newVault, unlock, and save; the
-- two that ask take the answers and give back what is left of them; save gives the vault in memory and
-- its file.
pub record Site : Type 0 where
  pub found : Result Bytes
  pub work_dir : Result Bytes
  pub create : Bytes → Answers → Result (Vault × Answers)
  pub unlock : Bytes → Answers → Result (Vault × Answers)
  pub store : Bytes → Vault → Result (Vault × Bytes)

-- The vault to write to, and whether it is made first.
unfoldable pub set_target : Bool → Bytes → Bytes → Bytes × Bool
set_target here path local =
    if (here && not (str_eq path local)) || str_eq path [] then (local, true) else (path, false)

abbrev pub no_flags : SetFlags
no_flags = record { here = false; expand = false; literal = false }

module _ (getenv : Bytes → Bytes) (site : Site) (mark : Mark) where
  -- From the opening of the vault on: the vault saved, its file, and its path.
  unfoldable pub set_at :
      SetFlags → List Bytes → Answers → Bytes × Bool → Result (Vault × Bytes × Bytes)
  unfolding set_keys
  set_at f args answers (p, fresh) =
      (if fresh then site.create p answers else site.unlock p answers) >>= λ opened.
      set_keys getenv mark f args opened.1 opened.0 >>= λ done.
      site.store p done.0 >>= λ saved. ok (saved.0, saved.1, p)

  unfoldable pub set_in_place : SetFlags → List Bytes → Answers → Result (Vault × Bytes × Bytes)
  unfolding set_target join_path set_at
  set_in_place f args answers = site.found >>= λ path. site.work_dir >>= λ cwd.
      set_at f args answers (set_target f.here path (join_path cwd vault_name))

  unfoldable pub set_with : SetFlags → List Bytes → Answers → Result (Vault × Bytes × Bytes)
  unfolding vet_keys set_in_place
  set_with f [] answers = if f.expand && f.literal then err contradicting else err usage
  set_with f (a ∷ args) answers =
      if f.expand && f.literal
      then err contradicting
      else vet_keys getenv f.expand (a ∷ args) >>= λ u. set_in_place f (a ∷ args) answers

  unfoldable pub cmd_set : List Bytes → Answers → Result (Vault × Bytes × Bytes)
  unfolding set_flags set_with
  cmd_set args answers = set_flags no_flags args >>= λ s. set_with s.0 s.1 answers
