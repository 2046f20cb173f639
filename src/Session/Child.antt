-- ===== src/Session/Child.antt =====
-- main.go and chain.go: what the program that `schain exec` runs finds in its environment.
use schain.Prelude.{
  ◌≡◌, refl, sym, ap, ◌∙◌, true, false, Option, none, some, inl, inr, List, [], ◌∷◌, arith,
  if◌then◌else◌, All, Option-cases,
}
use schain.Prelude.Text.{Bytes, member}
use schain.Prelude.Dict.{Dict, lookup, has_key, IsMap}
use schain.Fail.{ok, ◌>>=◌, >>=-ok}
use schain.Vault.{reserved, text_at}
use schain.Chain.{Chain, env, merge}
use schain.Chain.Merge.{effective, lookup-merge}
use schain.Environ.{find_env, previous_keys, is_marker, secret_environ}
use schain.Environ.Lookup.{find_env-secret_environ}
use schain.Unlock.{Answers}
use schain.Session.{Host, Launch, open_chain, exec_with, cmd_exec}

-- What a name stands for in the child: the chain's value of it, else nothing if an outer shell had put
-- it in, else what was there before.
abbrev pub seen_by_child : Host → List Bytes → Bytes → Option Bytes → Option Bytes
seen_by_child h previous k none = if member k previous then none else find_env k h.environ
seen_by_child h previous k (some val) = some val

pub env-merge : (getenv : Bytes → Bytes) (c : Chain) → env getenv c ≡ merge getenv true c
unfolding env
env-merge getenv c = refl

module _ (h : Host) (c : Chain) (name : Bytes) (args : List Bytes) (l : Launch) where
  after_look :
      (bin : Bytes)
      → h.look_path name ≡ some bin
      → exec_with h c name args ≡ ok l
      → (env h.sys.getenv c >>= λ m.
          secret_environ h.json h.sys.getenv h.environ m c.paths [] >>= λ es.
          ok (record { program = bin; arguments = name ∷ args; environment = es }))
        ≡ ok l
  unfolding exec_with
  after_look bin b e = rw (exec_with, b) at e

  not_found : h.look_path name ≡ none → exec_with h c name args ≡ ok l → ⊥
  unfolding exec_with
  not_found n e = cc (rw (exec_with, n) at e)

  pub exec_with-ok :
      exec_with h c name args ≡ ok l
      → (m : Dict Bytes) × (merge h.sys.getenv true c ≡ ok m)
        × (secret_environ h.json h.sys.getenv h.environ m c.paths [] ≡ ok l.environment)
  exec_with-ok e = elim (Option-cases (h.look_path name)) [
    | inl n ↦ absurd (not_found n e)
    | inr (bin, b) ↦
        let (m, e₁, r₁) = >>=-ok (env h.sys.getenv c) _ (after_look bin b e) in
        let (es, e₂, r₂) =
          >>=-ok (secret_environ h.json h.sys.getenv h.environ m c.paths []) _ r₁ in
        (m, sym (env-merge h.sys.getenv c) ∙ e₁, e₂ ∙ made bin es r₂)
  ]
    where
      made :
          (bin : Bytes) (es : List Bytes)
          → ok (record { program = bin; arguments = name ∷ args; environment = es }) ≡ ok l
          → ok es ≡ ok l.environment
      made bin es r = ground (arith, r)

-- Reading a map by presence and by value is reading it by lookup.
has_key-text_at :
    (h : Host) (previous : List Bytes) (k : Bytes) (m : Dict Bytes)
    → (if has_key k m
        then some (text_at k m)
        else if member k previous
        then none
        else find_env k h.environ)
      ≡ seen_by_child h previous k (lookup k m)
unfolding has_key
has_key-text_at h previous k m = elim (Option-cases (lookup k m)) [
  | inl e ↦ ground (arith, e)
  | inr (v, e) ↦ ground (arith, e)
]

-- The program that `schain exec` runs, once the chain is open, finds under every name that is no
-- marker: if the name is not reserved and a vault of the chain defines it, the value of the nearest
-- one that does, expanded where that vault says so; nothing if only an outer schain shell had put the
-- name in; and else what was in the environment before. No vault holds a key twice, and the names that
-- an outer shell had put in can be read.
pub find_env-cmd_exec :
    (h : Host) (name : Bytes) (args : List Bytes) (answers : Answers) (c : Chain) (l : Launch)
    (previous : List Bytes) (k : Bytes)
    → open_chain h answers ≡ ok c
    → All (λ v. IsMap v.secrets) c.vaults
    → previous_keys h.json h.sys.getenv ≡ ok previous
    → cmd_exec h name args answers ≡ ok l
    → is_marker k ≡ false
    → find_env k l.environment
      ≡ seen_by_child h previous k
          (if reserved k then none else effective h.sys.getenv true c.vaults c.paths c.dirs k none)
find_env-cmd_exec h name args answers c l previous k opened maps prev e marker =
    let (m, merged, made) = exec_with-ok h c name args l (started opened e) in
    find_env-secret_environ h.json h.sys.getenv h.environ m c.paths [] previous l.environment k prev
      made marker
    ∙ has_key-text_at h previous k m
    ∙ ap (seen_by_child h previous k) (lookup-merge h.sys.getenv true c m k maps merged)
  where
    started :
        open_chain h answers ≡ ok c
        → cmd_exec h name args answers ≡ ok l
        → exec_with h c name args ≡ ok l
    started o r = unfold cmd_exec in rw o at r
