-- ===== src/Assign/Values.antt =====
-- main.go: what `schain set` leaves in a vault.
use schain.Prelude.{
  ◌≡◌, false, Option, none, some, inl, inr, List, [], ◌∷◌, arith, if◌then◌else◌, Option-cases,
}
use schain.Prelude.Text.{Bytes, str_eq}
use schain.Prelude.Dict.{lookup}
use schain.Fail.{ok, err, Result-cases}
use schain.Vault.{Vault, Mark, expand_key, put}
use schain.Vault.Edits.{lookup-put}
use schain.Vault.Expanded.{lookup-set_expand}
use schain.Unlock.{Answers, prompt}
use schain.Assign.{SetFlags, key_value, set_key, vet_typed, set_keys}

-- The value that a key has after the arguments: that of the last argument that names it, where an
-- argument without a value takes the next answer.
unfoldable pub assigned : Bytes → List Bytes → Answers → Option Bytes → Option Bytes
assigned j [] answers held = held
assigned j (arg ∷ args) answers held =
    let (k, inline) = key_value arg in
    elim inline [
      | some val ↦ assigned j args answers (if str_eq k j then some val else held)
      | none ↦
          let (typed, rest) = prompt answers in
          elim typed [
            | err e ↦ held
            | ok val ↦ assigned j args rest (if str_eq k j then some val else held)
          ]
    ]

lookup-set_key :
    (mark : Mark) (f : SetFlags) (k val j : Bytes) (v : Vault)
    → str_eq expand_key j ≡ false
    → lookup j (set_key mark f k val v).secrets
      ≡ (if str_eq k j then some val else lookup j v.secrets)
unfolding set_key
lookup-set_key mark f k val j v h =
    ground (arith, lookup-put mark k val j v, lookup-set_expand k j f.expand (put mark k val v) h)

module _ (getenv : Bytes → Bytes) (mark : Mark) (f : SetFlags) (j : Bytes) where
  -- When `schain set` gets through its arguments, every key but the list of expanded keys holds the
  -- value of the last argument that names it, given in the argument or typed, and any other secret is
  -- as it was.
  pub lookup-set_keys :
      (args : List Bytes) (answers rest : Answers) (v out : Vault)
      → str_eq expand_key j ≡ false
      → set_keys getenv mark f args answers v ≡ ok (out, rest)
      → lookup j out.secrets ≡ assigned j args answers (lookup j v.secrets)
  unfolding set_keys assigned
  lookup-set_keys [] answers rest v out h e = ground (arith, e)
  lookup-set_keys (arg ∷ args) answers rest v out h e =
      let k = (key_value arg).0 in
      let left = (prompt answers).1 in
      elim (Option-cases (key_value arg).1) [
        | inr (val, a) ↦ ground (
          arith,
          a,
          e,
          lookup-set_key mark f k val j v h,
          lookup-set_keys args answers rest (set_key mark f k val v) out h,
        )
        | inl a ↦ elim (Result-cases (prompt answers).0) [
          | inl (x, b) ↦ ground (arith, a, b, e)
          | inr (val, b) ↦ elim (Result-cases (vet_typed getenv f.expand k val)) [
            | inl (x, c) ↦ ground (arith, a, b, c, e)
            | inr (u, c) ↦ ground (
              arith,
              a,
              b,
              c,
              e,
              lookup-set_key mark f k val j v h,
              lookup-set_keys args left rest (set_key mark f k val v) out h,
            )
          ]
        ]
      ]
