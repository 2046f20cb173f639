-- ===== src/Listing.antt =====
-- main.go and expand.go: `schain ls`, the keys of a chain with the vault that each comes from.
pub mod Keys
use schain.Prelude.{
  ℕ, suc, Bool, true, false, ◌&&◌, ◌||◌, not, Option, none, some, List, [], ◌∷◌, ◌++◌,
  if◌then◌else◌, ltb, ◌==◌, length,
}
use schain.Prelude.Text.{Bytes, codes, str_eq, has_prefix}
use schain.Prelude.Split.{join}
use schain.Prelude.Dict.{Dict, lookup, keys_of}
use schain.Prelude.Sort.{sort_strings}
use schain.Prelude.Paths.{dir_of, join_path, rel_path}
use schain.Fail.{Result, ok, err, ◌>>=◌, usage}
use schain.Expand.{expand_refs}
use schain.Vault.{Vault, expands, text_at, keys}
use schain.Chain.{Chain, secrets, definer_of}
use schain.Unlock.{Answers}
use schain.Discover.{resolve_vaults}
use schain.Session.{display, Host, must_find_vault, unlock_vault, open_chain}

unfoldable pub expand_note : (Bytes → Bytes) → Option Vault → Bytes → Bytes
expand_note getenv none k = []
expand_note getenv (some v) k =
    let refs = expand_refs getenv (text_at k v.secrets) in
    if not (expands v k)
    then []
    else if ltb 0 (length refs)
    then codes "expands " ++ join b' ' refs
    else codes "expanded"

pub record LsFlags : Type 0 where
  pub local : Bool
  pub verbose : Bool
  pub plain : Bool

unfoldable pub ls_flags : LsFlags → List Bytes → Result LsFlags
unfolding str_eq
ls_flags f [] = ok f
ls_flags f (a ∷ args) = elim (str_eq a (codes "--local")) [
  | true ↦ ls_flags (record f { local = true }) args
  | false ↦ elim (str_eq a (codes "-v") || str_eq a (codes "--verbose")) [
    | true ↦ ls_flags (record f { verbose = true }) args
    | false ↦ elim (str_eq a (codes "--plain")) [
      | true ↦ ls_flags (record f { plain = true }) args
      | false ↦ err usage
    ]
  ]
]

-- A line of the listing: the key, and with -v its vault and the note on it.
pub data Row : Type 0 where
  bare : Bytes → Row
  labelled : Bytes → Bytes → Bytes → Row

abbrev pub key_of : Row → Bytes
key_of (bare k) = k
key_of (labelled k src note) = k

-- The line of one key; a label that fails is an index out of range.
unfoldable pub row_of : (Bytes → Result (Bytes × Bytes)) → Bool → Bool → Bytes → Result Row
row_of label verbose plain k =
    if plain || not verbose then ok (bare k) else (label k >>= λ l. ok (labelled k l.0 l.1))

-- printKeys
unfoldable pub print_keys :
    List Bytes → (Bytes → Result (Bytes × Bytes)) → Bool → Bool → Result (List Row)
unfolding row_of
print_keys [] label verbose plain = ok []
print_keys (k ∷ ks) label verbose plain =
    row_of label verbose plain k >>= λ r. print_keys ks label verbose plain >>= λ rs. ok (r ∷ rs)

-- The label of a key of the chain.
unfoldable pub source_label :
    (Bytes → Bytes) → Option Bytes → Dict Bytes → Chain → Bytes → Result (Bytes × Bytes)
unfolding display
source_label getenv home borrowed c k = definer_of k c >>= λ d. elim (lookup d.1 borrowed) [
  | none ↦ ok (display home d.1, expand_note getenv d.0 k)
  | some dir ↦
      if str_eq dir []
      then ok (display home d.1, expand_note getenv d.0 k)
      else ok (display home d.1 ++ codes " (main checkout)", expand_note getenv d.0 k)
]

-- The listing of an open chain; `tty` is whether the output is a terminal.
unfoldable pub ls_chain :
    (Bytes → Bytes) → Option Bytes → Dict Bytes → Bool → LsFlags → Chain → Result (List Row)
unfolding print_keys
ls_chain getenv home borrowed tty f c =
    let verbose = if ltb 1 (length c.vaults) && not f.plain then f.verbose || tty else f.verbose in
    print_keys (sort_strings (keys_of (secrets getenv c))) (source_label getenv home borrowed c)
      verbose f.plain

unfoldable pub ls_local :
    (Bytes → Bytes) → Option Bytes → LsFlags → Bytes → Vault → Result (List Row)
unfolding print_keys
ls_local getenv home f path v =
    print_keys (keys v) (λ k. ok (display home path, expand_note getenv (some v) k)) f.verbose
      f.plain

unfoldable pub cmd_ls : Host → Bool → List Bytes → Answers → Result (List Row)
unfolding ls_flags ls_local ls_chain
cmd_ls h tty args answers =
    ls_flags (record { local = false; verbose = false; plain = false }) args >>= λ f.
    if f.local
    then (must_find_vault h >>= λ path.
        (unlock_vault h path answers).0 >>= λ v. ls_local h.sys.getenv h.home f path v)
    else (open_chain h answers >>= λ c.
        resolve_vaults h.sys >>= λ found. ls_chain h.sys.getenv h.home found.borrowed tty f c)
