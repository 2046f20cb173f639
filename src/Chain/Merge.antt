-- ===== src/Chain/Merge.antt =====
-- What the merge of a chain holds: for each key, the value of the nearest vault that defines it.
use schain.Prelude.{
  ◌≡◌, refl, sym, ap, ◌∙◌, Bool, true, false, Option, none, some, inl, inr, List, [], ◌∷◌, arith,
  ◌&&◌, if◌then◌else◌, Bool-cases, All,
}
use schain.Prelude.Text.{Bytes, str_eq, str_eq_iff, member}
use schain.Prelude.Split.{split}
use schain.Prelude.Dict.{
  Dict, lookup, insert, delete, lookup-insert, lookup-delete, lookup-nil, lookup-cons, has_key-none,
  IsMap,
}
use schain.Fail.{Result, ok, err, ◌>>=◌, Result-cases}
use schain.Expand.{expand_value}
use schain.Vault.{Vault, root_key, history_key, expand_key, reserved, expands, comma, text_at}
use schain.Chain.{
  Chain, first, rest_of, exported, blame, merge_keys, merge_vaults, without_reserved, merge,
  secrets, env,
}

abbrev pub value_in : Result Bytes → Option Bytes
value_in (ok got) = some got
value_in (err e) = none

-- The key is in the vault's list of expanded keys.
abbrev pub is_listed : Bytes → Vault → Bool
is_listed k v = member k (split comma (text_at expand_key v.secrets))

abbrev pub is_ok : Result Bytes → Bool
is_ok (ok got) = true
is_ok (err e) = false

module _ (getenv : Bytes → Bytes) (expand : Bool) where
  -- What a value stands for: itself, or, in an expanding merge where the vault lists the key, its
  -- expansion against the directory of that vault.
  abbrev pub stands_for : Vault → Option Bytes → Bytes → Bytes → Option Bytes
  stands_for v none k val = if expand && is_listed k v then none else some val
  stands_for v (some dir) k val =
      if expand && is_listed k v then value_in (expand_value getenv val dir) else some val

  pub value_in-exported :
      (v : Vault) (path dir : Option Bytes) (k val : Bytes)
      → value_in (exported getenv expand v path dir k val) ≡ stands_for v dir k val
  unfolding exported expands blame
  value_in-exported v path none k val = ground arith
  value_in-exported v path (some dir) k val = elim (Result-cases (expand_value getenv val dir)) [
    | inl (e, q) ↦ ground (arith, q)
    | inr (got, q) ↦ ground (arith, q)
  ]

  -- What one vault's entry for a key turns into; without an entry, what was there before.
  abbrev pub entry_of :
      Vault → Option Bytes → Option Bytes → Bytes → Option Bytes → Option Bytes → Option Bytes
  entry_of v path dir k none before = before
  entry_of v path dir k (some val) before = stands_for v dir k val

  -- The nearest vault's entry, walking from the root.
  unfoldable pub effective :
      List Vault → List Bytes → List Bytes → Bytes → Option Bytes → Option Bytes
  effective [] ps ds k before = before
  effective (v ∷ vs) ps ds k before =
      effective vs (rest_of ps) (rest_of ds) k
        (entry_of v (first ps) (first ds) k (lookup k v.secrets) before)

  module _ (v : Vault) (path dir : Option Bytes) where
    pub merge_keys_step :
        (j val : Bytes) (m out r : Dict Bytes)
        → merge_keys getenv expand v path dir ((j, val) ∷ m) out ≡ ok r
        → (got : Bytes) × (exported getenv expand v path dir j val ≡ ok got)
          × (merge_keys getenv expand v path dir m (insert j got out) ≡ ok r)
    unfolding merge_keys
    merge_keys_step j val m out r h = go (exported getenv expand v path dir j val) refl h
      where
        go :
            (e : Result Bytes)
            → exported getenv expand v path dir j val ≡ e
            → (elim e as (λ _. Result (Dict Bytes)) [
              | err x ↦ err x
              | ok got ↦ merge_keys getenv expand v path dir m (insert j got out)
            ])
              ≡ ok r
            → (got : Bytes) × (exported getenv expand v path dir j val ≡ ok got)
              × (merge_keys getenv expand v path dir m (insert j got out) ≡ ok r)
        go (ok got) e p = (got, e, p)
        go (err x) e p = cc

    lookup-merge_keys :
        (m out r : Dict Bytes) (k : Bytes)
        → IsMap m
        → merge_keys getenv expand v path dir m out ≡ ok r
        → lookup k r ≡ entry_of v path dir k (lookup k m) (lookup k out)
    lookup-merge_keys [] out r k d h =
        unfold merge_keys in ground (arith, h, lookup-nil {V = Bytes} k)
    lookup-merge_keys ((j, val) ∷ m) out r k d h =
        let (got, e, p) = merge_keys_step j val m out r h in
        lookup-merge_keys m (insert j got out) r k d.1 p ∙ rest got e
      where
        rest :
            (got : Bytes)
            → exported getenv expand v path dir j val ≡ ok got
            → entry_of v path dir k (lookup k m) (lookup k (insert j got out))
              ≡ entry_of v path dir k (lookup k ((j, val) ∷ m)) (lookup k out)
        rest got e = elim (Bool-cases (str_eq j k)) [
          | inl y ↦ ground (
            arith,
            lookup-cons k j val m,
            lookup-insert j k got out,
            sym (value_in-exported v path dir j val) ∙ ap value_in e,
            y,
            str_eq_iff j k,
            has_key-none j m d.0,
          )
          | inr n ↦ ground (arith, lookup-cons k j val m, lookup-insert j k got out, n)
        ]

  pub merge_vaults_step :
      (v : Vault) (vs : List Vault) (ps ds : List Bytes) (out r : Dict Bytes)
      → merge_vaults getenv expand (v ∷ vs) ps ds out ≡ ok r
      → (mid : Dict Bytes) × (merge_keys getenv expand v (first ps) (first ds) v.secrets out
          ≡ ok mid)
        × (merge_vaults getenv expand vs (rest_of ps) (rest_of ds) mid ≡ ok r)
  unfolding merge_vaults
  merge_vaults_step v vs ps ds out r h =
      go (merge_keys getenv expand v (first ps) (first ds) v.secrets out) refl h
    where
      go :
          (e : Result (Dict Bytes))
          → merge_keys getenv expand v (first ps) (first ds) v.secrets out ≡ e
          → (elim e as (λ _. Result (Dict Bytes)) [
            | err x ↦ err x
            | ok mid ↦ merge_vaults getenv expand vs (rest_of ps) (rest_of ds) mid
          ])
            ≡ ok r
          → (mid : Dict Bytes) × (merge_keys getenv expand v (first ps) (first ds) v.secrets out
              ≡ ok mid)
            × (merge_vaults getenv expand vs (rest_of ps) (rest_of ds) mid ≡ ok r)
      go (ok mid) e p = (mid, e, p)
      go (err x) e p = cc

  lookup-merge_vaults :
      (vs : List Vault) (ps ds : List Bytes) (out r : Dict Bytes) (k : Bytes)
      → All (λ v. IsMap v.secrets) vs
      → merge_vaults getenv expand vs ps ds out ≡ ok r
      → lookup k r ≡ effective vs ps ds k (lookup k out)
  unfolding effective
  lookup-merge_vaults [] ps ds out r k d h = unfold merge_vaults in ground (arith, h)
  lookup-merge_vaults (v ∷ vs) ps ds out r k (d, ds') h =
      let (mid, e, p) = merge_vaults_step v vs ps ds out r h in
      lookup-merge_vaults vs (rest_of ps) (rest_of ds) mid r k ds' p
      ∙ ap (effective vs (rest_of ps) (rest_of ds) k)
          (lookup-merge_keys v (first ps) (first ds) v.secrets out mid k d e)

lookup-without_reserved :
    (k : Bytes) (m : Dict Bytes)
    → lookup k (without_reserved m) ≡ (if reserved k then none else lookup k m)
unfolding without_reserved reserved
lookup-without_reserved k m = ground (
  arith,
  lookup-delete root_key k (delete history_key (delete expand_key m)),
  lookup-delete history_key k (delete expand_key m),
  lookup-delete expand_key k m,
  str_eq_iff root_key k,
  str_eq_iff k root_key,
  str_eq_iff history_key k,
  str_eq_iff k history_key,
  str_eq_iff expand_key k,
  str_eq_iff k expand_key,
)

-- A merge that succeeds holds, for every key that is not reserved, what the nearest vault defining it
-- has: its stored value, or in the expanding merge, where that vault's list of expanded keys has the
-- key, its expansion against the directory of that vault. It holds no reserved key, and no key that no
-- vault defines. No vault holds a key twice.
pub lookup-merge :
    (getenv : Bytes → Bytes) (expand : Bool) (c : Chain) (out : Dict Bytes) (k : Bytes)
    → All (λ v. IsMap v.secrets) c.vaults
    → merge getenv expand c ≡ ok out
    → lookup k out
      ≡ (if reserved k then none else effective getenv expand c.vaults c.paths c.dirs k none)
unfolding merge
lookup-merge getenv expand c out k d h =
    go (merge_vaults getenv expand c.vaults c.paths c.dirs []) refl h
  where
    go :
        (e : Result (Dict Bytes))
        → merge_vaults getenv expand c.vaults c.paths c.dirs [] ≡ e
        → (e >>= λ m. ok (without_reserved m)) ≡ ok out
        → lookup k out
          ≡ (if reserved k then none else effective getenv expand c.vaults c.paths c.dirs k none)
    go (ok m) e p =
        let q = lookup-merge_vaults getenv expand c.vaults c.paths c.dirs [] m k d e in
        ground (arith, p, lookup-without_reserved k m, q, lookup-nil {V = Bytes} k)
    go (err x) e p = cc

module _ (getenv : Bytes → Bytes) where
  exported_stored :
      (v : Vault) (path dir : Option Bytes) (k val : Bytes)
      → exported getenv false v path dir k val ≡ ok val
  unfolding exported
  exported_stored v path none k val = refl
  exported_stored v path (some d) k val = refl

  merge_keys_stored :
      (v : Vault) (path dir : Option Bytes) (m out : Dict Bytes)
      → (r : Dict Bytes) × (merge_keys getenv false v path dir m out ≡ ok r)
  unfolding merge_keys
  merge_keys_stored v path dir [] out = (out, refl)
  merge_keys_stored v path dir ((k, val) ∷ m) out =
      rw (exported_stored v path dir k val, merge_keys)
        (merge_keys_stored v path dir m (insert k val out))

  merge_vaults_stored :
      (vs : List Vault) (ps ds : List Bytes) (out : Dict Bytes)
      → (r : Dict Bytes) × (merge_vaults getenv false vs ps ds out ≡ ok r)
  unfolding merge_vaults
  merge_vaults_stored [] ps ds out = (out, refl)
  merge_vaults_stored (v ∷ vs) ps ds out =
      let (mid, e) = merge_keys_stored v (first ps) (first ds) v.secrets out in
      let (r, p) = merge_vaults_stored vs (rest_of ps) (rest_of ds) mid in
      (r, rw (e, merge_vaults) p)

  -- The merge of what is stored never fails, so `secrets` may drop the error.
  pub merge-secrets : (c : Chain) → merge getenv false c ≡ ok (secrets getenv c)
  unfolding secrets
  merge-secrets c = let (r, e) = merge_vaults_stored c.vaults c.paths c.dirs [] in ground (arith, e)

  exported_plain :
      (expand : Bool) (v : Vault) (path dir : Option Bytes) (k val : Bytes)
      → expands v k ≡ false
      → exported getenv expand v path dir k val ≡ ok val
  unfolding exported
  exported_plain expand v path none k val h = ground arith
  exported_plain expand v path (some d) k val h = ground arith

  effective_plain :
      (vs : List Vault) (ps ds : List Bytes) (k : Bytes) (before : Option Bytes)
      → All (λ v. expands v k ≡ false) vs
      → effective getenv true vs ps ds k before ≡ effective getenv false vs ps ds k before
  unfolding effective
  effective_plain [] ps ds k before h = refl
  effective_plain (v ∷ vs) ps ds k before (h, hs) =
      ap (effective getenv true vs (rest_of ps) (rest_of ds) k) (same (lookup k v.secrets))
      ∙ effective_plain vs (rest_of ps) (rest_of ds) k _ hs
    where
      same :
          (o : Option Bytes)
          → entry_of getenv true v (first ps) (first ds) k o before
            ≡ entry_of getenv false v (first ps) (first ds) k o before
      same none = refl
      same (some val) =
          sym (value_in-exported getenv true v (first ps) (first ds) k val)
          ∙ ap value_in (
              exported_plain true v (first ps) (first ds) k val h
              ∙ sym (exported_plain false v (first ps) (first ds) k val h))
          ∙ value_in-exported getenv false v (first ps) (first ds) k val

  -- A key that no vault of the chain expands has in a child's environment the value that `ls` reports
  -- of the chain: the stored value of the nearest vault that defines it.
  pub env-secrets :
      (c : Chain) (out : Dict Bytes) (k : Bytes)
      → All (λ v. IsMap v.secrets) c.vaults
      → All (λ v. expands v k ≡ false) c.vaults
      → env getenv c ≡ ok out
      → lookup k out ≡ lookup k (secrets getenv c)
  unfolding env
  env-secrets c out k d h e =
      lookup-merge getenv true c out k d e
      ∙ ap (λ t. if reserved k then none else t) (effective_plain c.vaults c.paths c.dirs k none h)
      ∙ sym (lookup-merge getenv false c (secrets getenv c) k d (merge-secrets c))
