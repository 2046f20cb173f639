-- ===== src/Remember.antt =====
-- main.go: `schain remember` and `schain forget`. The operating system's store is an argument: what it
-- answers when a payload is stored for a path, and whether an entry of a path is gone.
pub mod Bounds
use schain.Prelude.{
  ℕ, zero, suc, ◌+◌, ◌-◌, ◌*◌, ◌/◌, ◌^◌, Bool, true, false, ◌&&◌, ◌||◌, not, Option, none, some,
  List, [], ◌∷◌, ◌++◌, map, if◌then◌else◌, ltb, leb, ◌==◌, length, take,
}
use schain.Prelude.Text.{Bytes, codes, str_eq, has_prefix}
use schain.Prelude.Number.{ℤ, pos, negsuc, atoi}
use schain.Fail.{Fail, Result, ok, err, ◌>>=◌, panic, usage, bad_duration, no_vault, nothing_cached}
use schain.Vault.{Vault}
use schain.Cache.{max_ttl, cache_payload}
use schain.Unlock.{Answers}
use schain.Batch.{VaultRun, each_vault}
use schain.Chain.{Chain, merge_paths, reversed}
use schain.Walk.{Disk, find_vaults_under}
use schain.Discover.{find_vaults, work_dir}
use schain.Session.{Host, doors, must_find_vault, unlock_vault, open_chain}

pub data Scope : Type 0 where
  of_chain of_local of_all : Scope

-- scopeFlag, without the usage text
unfoldable pub scope_flag : List Bytes → Result (Scope × List Bytes)
unfolding str_eq has_prefix
scope_flag [] = ok (of_chain, [])
scope_flag (a ∷ args) =
    if str_eq a (codes "--local")
    then ok (of_local, args)
    else if str_eq a (codes "--all") || str_eq a (codes "-a")
    then ok (of_all, args)
    else if has_prefix a (codes "-")
    then err usage
    else ok (of_chain, a ∷ args)

abbrev pub second : ℕ
second = 1_000_000_000

-- Minutes, or nanoseconds of a duration that time.ParseDuration has read.
unfoldable pub ttl_of_minutes : ℤ → Option ℕ
ttl_of_minutes (negsuc n) = none
ttl_of_minutes (pos n) = if n == 0 || ltb (max_ttl / 60) n then none else some (n * 60)

unfoldable pub ttl_of_duration : ℤ → Option ℕ
ttl_of_duration (negsuc n) = none
ttl_of_duration (pos n) =
    if ltb n second || ltb max_ttl (n / second) then none else some (n / second)

abbrev pub or_bad : Bytes → Option ℕ → Result ℕ
or_bad s none = err (bad_duration s)
or_bad s (some n) = ok n

unfoldable pub parse_ttl : (Bytes → Option ℤ) → Bytes → Result ℕ
unfolding ttl_of_minutes ttl_of_duration
parse_ttl parse_duration s = elim (atoi s) [
  | some n ↦ or_bad s (ttl_of_minutes n)
  | none ↦ elim (parse_duration s) [
    | none ↦ err (bad_duration s)
    | some d ↦ or_bad s (ttl_of_duration d)
  ]
]

-- The time to live of the arguments behind the scope, 0 for none.
unfoldable pub ttl_of_args : (Bytes → Option ℤ) → List Bytes → Result ℕ
unfolding parse_ttl
ttl_of_args parse_duration [] = ok 0
ttl_of_args parse_duration (a ∷ []) = parse_ttl parse_duration a
ttl_of_args parse_duration (a ∷ b ∷ args) = err usage

-- What the commands ask of their surroundings: the store, and the walk below a directory.
pub record Keeper : Type 0 where
  pub store : Bytes → Bytes → ℕ → Option Fail
  pub forget : Bytes → Bool
  pub disk : Disk
  pub parse_duration : Bytes → Option ℤ

unfoldable pub remember_vault : Keeper → ℕ → Bytes → Vault → Option Fail
remember_vault k ttl path v = k.store path (cache_payload v.salt v.key) ttl

-- The loop over a chain: the paths that are cached, up to an error.
unfoldable pub remember_each : Keeper → ℕ → List Vault → List Bytes → Result (List Bytes)
unfolding remember_vault
remember_each k ttl [] ps = ok []
remember_each k ttl (v ∷ vs) [] = err panic
remember_each k ttl (v ∷ vs) (p ∷ ps) = elim (remember_vault k ttl p v) [
  | some e ↦ err e
  | none ↦ remember_each k ttl vs ps >>= λ done. ok (p ∷ done)
]

unfoldable pub all_vaults : Host → Keeper → Result (List Bytes)
unfolding merge_paths reversed find_vaults_under
all_vaults h k = find_vaults h.sys >>= λ up. work_dir h.sys >>= λ cwd.
    let down = find_vaults_under h.sys.is_vault_file k.disk cwd in
    let paths = merge_paths (reversed up ∷ down ∷ []) in
    if length paths == 0 then err no_vault else ok paths

-- How many vaults were cached, of how many.
unfoldable pub remember_scope : Host → Keeper → ℕ → Answers → Scope → Result (ℕ × ℕ)
unfolding remember_each all_vaults
remember_scope h k ttl answers of_all = all_vaults h k >>= λ paths.
    let (run, rest) = each_vault (remember_vault k ttl) (doors h) paths answers in
    elim run.failed [ some e ↦ err e | none ↦ ok (run.done, length paths) ]
remember_scope h k ttl answers of_local = must_find_vault h >>= λ path.
    (unlock_vault h path answers).0 >>= λ v. elim (remember_vault k ttl path v) [
      | some e ↦ err e
      | none ↦ ok (1, 1)
    ]
remember_scope h k ttl answers of_chain = open_chain h answers >>= λ c.
    remember_each k ttl c.vaults c.paths >>= λ done. ok (length done, length c.paths)

unfoldable pub cmd_remember : Host → Keeper → List Bytes → Answers → Result (ℕ × ℕ)
unfolding scope_flag ttl_of_args remember_scope
cmd_remember h k args answers = scope_flag args >>= λ s.
    ttl_of_args k.parse_duration s.1 >>= λ ttl. remember_scope h k ttl answers s.0

unfoldable pub forget_paths : Host → Keeper → Scope → Result (List Bytes)
unfolding all_vaults
forget_paths h k of_all = all_vaults h k
forget_paths h k of_chain =
    find_vaults h.sys >>= λ ps. if length ps == 0 then err no_vault else ok ps
forget_paths h k of_local =
    find_vaults h.sys >>= λ ps. if length ps == 0 then err no_vault else ok (take 1 ps)

-- The loop over what forEach gives back: the paths whose entry is gone.
unfoldable pub forgotten : Keeper → List Bytes → List Bytes
forgotten k [] = []
forgotten k (p ∷ ps) = let rest = forgotten k ps in if k.forget p then p ∷ rest else rest

abbrev pub is_all : Scope → Bool
is_all of_all = true
is_all of_chain = false
is_all of_local = false

unfoldable pub cmd_forget : Host → Keeper → List Bytes → Result (List Bytes)
unfolding scope_flag forget_paths forgotten
cmd_forget h k args = scope_flag args >>= λ s.
    if not (length s.1 == 0)
    then err usage
    else forget_paths h k s.0 >>= λ paths.
        if not (is_all s.0) && length (forgotten k paths) == 0
        then err nothing_cached
        else ok (forgotten k paths)
