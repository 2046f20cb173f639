-- ===== src/Unlock.antt =====
-- chain.go: opening the vaults of a chain, with the passphrases learned on the way. What the terminal
-- answers is a list, an error where a read fails; no answer left is the end of the input.
pub mod Loaded
pub mod Nearest
use schain.Prelude.{
  ℕ, zero, suc, ◌+◌, Bool, true, false, ◌&&◌, ◌||◌, not, Option, none, some, List, [], ◌∷◌, ◌++◌,
  if◌then◌else◌, length,
}
use schain.Prelude.Text.{Bytes, str_eq}
use schain.Fail.{
  Fail, Result, ok, err, bad_passphrase, is_bad_passphrase, abort, end_of_input, inherited,
}
use schain.Vault.{Vault, root_key, text_at}
use schain.Chain.{Chain, first, rest_of}

-- The ways to open a vault that the other files implement: `openCached`, `openVault`, whether
-- `passphraseSource` names a source, and `askPassphrase` of that source.
pub record Doors : Type 0 where
  pub open_cached : Bytes → Option Vault
  pub open_vault : Bytes → Bytes → Result Vault
  pub has_source : Bool
  pub ask_source : Bytes → Result Bytes

abbrev pub Answers : Type 0
Answers = List (Result Bytes)

-- promptSecret: the answer, and the answers left.
unfoldable pub prompt : Answers → Result Bytes × Answers
prompt [] = (err end_of_input, [])
prompt (a ∷ as') = (a, as')

-- How the loop over the known passphrases ends; a hit has the list with its passphrase in front.
pub data Tried : Type 0 where
  hit : Vault → List Bytes → Tried
  miss : Tried
  failed : Fail → Tried

pub record Unlocked : Type 0 where
  pub result : Result Vault
  pub known : List Bytes
  pub answers : Answers

-- A vault goes to the root end of the chain.
unfoldable pub put_first : Vault → Bytes → Option Bytes → Chain → Chain
put_first v p dir c = record {
  vaults = v ∷ c.vaults;
  paths = p ∷ c.paths;
  dirs = elim dir [ none ↦ c.dirs | some x ↦ x ∷ c.dirs ];
}

module _ (d : Doors) where
  -- The loop, with the passphrases already tried in their order.
  unfoldable pub try_known : Bytes → List Bytes → List Bytes → Tried
  try_known path tried [] = miss
  try_known path tried (p ∷ ps) = elim (d.open_vault path p) [
    | ok v ↦ hit v (p ∷ tried ++ ps)
    | err e ↦ elim (is_bad_passphrase e) [
      | true ↦ try_known path (tried ++ p ∷ []) ps
      | false ↦ failed e
    ]
  ]

  -- After a prompt: a passphrase that opens the vault is put in front.
  unfoldable pub after_prompt : Bytes → List Bytes → Answers → Result Bytes → Unlocked
  after_prompt path known rest (err e) = record {
    result = err (abort e);
    known = known;
    answers = rest;
  }
  after_prompt path known rest (ok p) = elim (d.open_vault path p) [
    | err e ↦ record { result = err e; known = known; answers = rest }
    | ok v ↦ record { result = ok v; known = p ∷ known; answers = rest }
  ]

  unfoldable pub from_source : Bytes → Result Vault
  from_source path = elim (d.ask_source path) [ err e ↦ err e | ok p ↦ d.open_vault path p ]

  unfoldable pub by_passphrase : Bytes → List Bytes → Answers → Tried → Unlocked
  unfolding after_prompt prompt
  by_passphrase path known answers (hit v known') = record {
    result = ok v;
    known = known';
    answers = answers;
  }
  by_passphrase path known answers (failed e) = record {
    result = err e;
    known = known;
    answers = answers;
  }
  by_passphrase path known answers miss =
      let (a, rest) = prompt answers in after_prompt path known rest a

  unfoldable pub unlock_known : Bytes → List Bytes → Answers → Unlocked
  unfolding try_known by_passphrase from_source
  unlock_known path known answers = elim (d.open_cached path) [
    | some v ↦ record { result = ok v; known = known; answers = answers }
    | none ↦
        if d.has_source
        then record { result = from_source path; known = known; answers = answers }
        else by_passphrase path known answers (try_known path [] known)
  ]

  -- The loop of loadChain over the paths, nearest first; `above` is whether `i > 0`.
  unfoldable pub load_from :
      Bool → List Bytes → List Bytes → List Bytes → Answers → Chain → Result Chain
  load_from above [] ds known answers c = ok c
  load_from above (p ∷ ps) ds known answers c =
      let u = unlock_known p known answers in
      elim u.result [
        | err e ↦ err (if above then inherited p e else e)
        | ok v ↦
            let c' = put_first v p (first ds) c in
            elim (str_eq (text_at root_key v.secrets) []) [
              | false ↦ ok c'
              | true ↦ load_from true ps (rest_of ds) u.known u.answers c'
            ]
      ]

  -- `dirs` is what vaultDirs returns: a directory for each path.
  unfoldable pub load_chain : List Bytes → List Bytes → Answers → Result Chain
  unfolding load_from put_first
  load_chain paths dirs answers =
      load_from false paths dirs [] answers (record { vaults = []; paths = []; dirs = [] })
