-- ===== src/Chain/Distinct.antt =====
-- chain.go: the map that a merge makes has no key twice.
use schain.Prelude.{◌≡◌, false, Bool, Option, List, [], ◌∷◌, arith}
use schain.Prelude.Text.{Bytes}
use schain.Prelude.Dict.{Dict, IsMap, insert-IsMap, delete-IsMap}
use schain.Fail.{ok, ◌>>=◌, >>=-ok}
use schain.Vault.{Vault, root_key, history_key, expand_key}
use schain.Chain.{Chain, first, rest_of, merge_keys, merge_vaults, without_reserved, merge, secrets}
use schain.Chain.Merge.{merge_keys_step, merge_vaults_step, merge-secrets}

module _ (getenv : Bytes → Bytes) (expand : Bool) where
  merge_keys-IsMap :
      (v : Vault) (path dir : Option Bytes) (m out r : Dict Bytes)
      → IsMap out
      → merge_keys getenv expand v path dir m out ≡ ok r
      → IsMap r
  unfolding merge_keys
  merge_keys-IsMap v path dir [] out r h e = ground (arith, e, h)
  merge_keys-IsMap v path dir ((k, val) ∷ m) out r h e =
      let (got, _, p) = merge_keys_step getenv expand v path dir k val m out r e in
      merge_keys-IsMap v path dir m _ r (insert-IsMap k got out h) p

  merge_vaults-IsMap :
      (vs : List Vault) (ps ds : List Bytes) (out r : Dict Bytes)
      → IsMap out
      → merge_vaults getenv expand vs ps ds out ≡ ok r
      → IsMap r
  unfolding merge_vaults
  merge_vaults-IsMap [] ps ds out r h e = ground (arith, e, h)
  merge_vaults-IsMap (v ∷ vs) ps ds out r h e =
      let (mid, q, p) = merge_vaults_step getenv expand v vs ps ds out r e in
      merge_vaults-IsMap vs (rest_of ps) (rest_of ds) mid r
        (merge_keys-IsMap v (first ps) (first ds) v.secrets out mid h q) p

without_reserved-IsMap : (m : Dict Bytes) → IsMap m → IsMap (without_reserved m)
unfolding without_reserved
without_reserved-IsMap m h =
    delete-IsMap root_key _ (delete-IsMap history_key _ (delete-IsMap expand_key m h))

pub secrets-IsMap : (getenv : Bytes → Bytes) (c : Chain) → IsMap (secrets getenv c)
unfolding merge
secrets-IsMap getenv c =
    let (m, q, p) =
      >>=-ok (merge_vaults getenv false c.vaults c.paths c.dirs []) (λ m. ok (without_reserved m))
        (steps c) in
    let h = merge_vaults-IsMap getenv false c.vaults c.paths c.dirs [] m tt q in
    held (secrets getenv c) m p h
  where
    steps :
        (c : Chain)
        → (merge_vaults getenv false c.vaults c.paths c.dirs [] >>= λ m. ok (without_reserved m))
          ≡ ok (secrets getenv c)
    steps c = merge-secrets getenv c

    held : (r m : Dict Bytes) → ok (without_reserved m) ≡ ok r → IsMap m → IsMap r
    held r m p h = ground (arith, p, without_reserved-IsMap m h)
