-- ===== src/Chain/Nearest.antt =====
-- chain.go: the nearest vault decides what a chain gives for a key that it holds.
use schain.Prelude.{◌≡◌, refl, false, true, Option, none, some, List, [], ◌∷◌, ◌++◌, ap, sym, ◌∙◌}
use schain.Prelude.Text.{Bytes}
use schain.Prelude.Dict.{lookup}
use schain.Fail.{ok}
use schain.Vault.{Vault, expands}
use schain.Chain.{first, rest_of, exported}
use schain.Chain.Merge.{effective, value_in, entry_of, value_in-exported}

module _ (getenv : Bytes → Bytes) where
  exported-literal :
      (v : Vault) (path dir : Option Bytes) (k val : Bytes)
      → expands v k ≡ false
      → exported getenv true v path dir k val ≡ ok val
  unfolding exported
  exported-literal v path none k val h = rw h refl
  exported-literal v path (some dir) k val h = rw h refl

  -- A value of the last vault that is not expanded is the value of the chain.
  pub effective-last :
      (vs : List Vault) (v : Vault) (ps ds : List Bytes) (k val : Bytes) (before : Option Bytes)
      → lookup k v.secrets ≡ some val
      → expands v k ≡ false
      → effective getenv true (vs ++ v ∷ []) ps ds k before ≡ some val
  unfolding effective
  effective-last [] v ps ds k val before l e = rw l (
      sym (value_in-exported getenv true v (first ps) (first ds) k val)
      ∙ ap value_in (exported-literal v (first ps) (first ds) k val e))
  effective-last (u ∷ vs) v ps ds k val before l e =
      effective-last vs v (rest_of ps) (rest_of ds) k val
        (entry_of getenv true u (first ps) (first ds) k (lookup k u.secrets) before) l e
