-- ===== src/Wipe.antt =====
-- vault.go and chain.go: the clearing of keys and values once they are no longer needed.
use schain.Prelude.{◌≡◌, refl, List, [], ◌∷◌, All}
use schain.Prelude.Text.{Bytes}
use schain.Prelude.Dict.{Dict}
use schain.Vault.{Vault, Revision}
use schain.Chain.{Chain}

unfoldable pub wipe : Bytes → Bytes
wipe [] = []
wipe (b ∷ s) = 0 ∷ wipe s

unfoldable pub wipe_all : List Bytes → List Bytes
unfolding wipe
wipe_all [] = []
wipe_all (b ∷ bs) = wipe b ∷ wipe_all bs

unfoldable pub wipe_map : Dict Bytes → Dict Bytes
wipe_map [] = []
wipe_map ((k, val) ∷ m) = (k, []) ∷ wipe_map m

unfoldable pub wipe_revisions : List Revision → List Revision
wipe_revisions [] = []
wipe_revisions (r ∷ rs) = record r { val = [] } ∷ wipe_revisions rs

unfoldable pub wipe_history : Dict (List Revision) → Dict (List Revision)
unfolding wipe_revisions
wipe_history [] = []
wipe_history ((k, revs) ∷ m) = (k, wipe_revisions revs) ∷ wipe_history m

unfoldable pub close_vault : Vault → Vault
unfolding wipe wipe_map wipe_history
close_vault v = record v {
  key = wipe v.key;
  secrets = wipe_map v.secrets;
  history = wipe_history v.history;
}

unfoldable pub close_vaults : List Vault → List Vault
unfolding close_vault
close_vaults [] = []
close_vaults (v ∷ vs) = close_vault v ∷ close_vaults vs

unfoldable pub close_chain : Chain → Chain
unfolding close_vaults
close_chain c = record c { vaults = close_vaults c.vaults }

-- Nothing secret is left: no byte of the key, no value, and no past value.
pub record IsCleared (v : Vault) : Type 0 where
  pub key : All (λ b. b ≡ 0) v.key
  pub secrets : All (λ e. e.1 ≡ []) v.secrets
  pub history : All (λ e. All (λ r. r.val ≡ []) e.1) v.history

wipe-zero : (s : Bytes) → All (λ b. b ≡ 0) (wipe s)
unfolding wipe
wipe-zero [] = tt
wipe-zero (b ∷ s) = (refl, wipe-zero s)

wipe_map-empty : (m : Dict Bytes) → All (λ e. e.1 ≡ []) (wipe_map m)
unfolding wipe_map
wipe_map-empty [] = tt
wipe_map-empty ((k, val) ∷ m) = (refl, wipe_map-empty m)

wipe_revisions-empty : (rs : List Revision) → All (λ r. r.val ≡ []) (wipe_revisions rs)
unfolding wipe_revisions
wipe_revisions-empty [] = tt
wipe_revisions-empty (r ∷ rs) = (refl, wipe_revisions-empty rs)

wipe_history-empty :
    (m : Dict (List Revision)) → All (λ e. All (λ r. r.val ≡ []) e.1) (wipe_history m)
unfolding wipe_history
wipe_history-empty [] = tt
wipe_history-empty ((k, revs) ∷ m) = (wipe_revisions-empty revs, wipe_history-empty m)

close_vault-IsCleared : (v : Vault) → IsCleared (close_vault v)
unfolding close_vault
close_vault-IsCleared v = record {
  key = wipe-zero v.key;
  secrets = wipe_map-empty v.secrets;
  history = wipe_history-empty v.history;
}

-- A chain that is closed holds nothing secret, and has as many vaults as before.
pub close_chain-IsCleared : (c : Chain) → All IsCleared (close_chain c).vaults
unfolding close_chain
close_chain-IsCleared c = each c.vaults
  where
    each : (vs : List Vault) → All IsCleared (close_vaults vs)
    each [] = tt
    each (v ∷ vs) = (close_vault-IsCleared v, each vs)
