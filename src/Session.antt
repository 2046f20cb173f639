-- ===== src/Session.antt =====
-- main.go and chain.go: the commands that run another program with the chain's environment. `Host` is
-- what the program finds around it; the parts that the other files model are put together here.
pub mod Child
pub mod Same
pub mod Remembered
use schain.Prelude.{
  ℕ, zero, suc, ◌+◌, ◌-◌, Bool, true, false, ◌&&◌, ◌||◌, not, Option, none, some, List, [], ◌∷◌,
  ◌++◌, if◌then◌else◌, ◌==◌, length, take,
}
use schain.Prelude.Text.{Bytes, codes, str_eq, has_prefix, contains, member}
use schain.Prelude.Split.{split}
use schain.Prelude.Paths.{base_of, trim_space, slash, dir_of, rel_path, join_path}
use schain.Prelude.Dict.{has_key}
use schain.Fail.{
  Fail, Result, ok, err, ◌>>=◌, no_vault, inside_shell, outside_shell, vault_gone, no_program,
}
use schain.Vault.{Vault}
use schain.Format.{Crypto, open_vault, open_vault_key}
use schain.Cache.{try_cache}
use schain.Unlock.{Doors, Answers, load_chain}
use schain.Askpass.{
  Surroundings, Helper, PassFile, Action, ask_open, by_terminal, by_askpass, by_file, Source,
  passphrase_source, ask_passphrase, unlock,
}
use schain.Discover.{System, find_vaults, find_vault, vault_dirs}
use schain.Chain.{Chain, env, nearest, reversed}
use schain.Subshell.{Temp, File, marker_of, subshell_launch}
use schain.Environ.{Json, secret_environ}

pub record Host : Type 0 where
  pub sys : System
  pub helper : Bytes → Bytes → Action → Helper
  pub pass_file : Bytes → PassFile
  pub crypto : Crypto
  -- the vault files, and the entries of the operating system's store
  pub file_at : Bytes → Option Bytes
  pub cached_at : Bytes → Result Bytes
  -- the clock, os.Environ, exec.LookPath, whether os.Stat succeeds
  pub now : ℕ
  pub environ : List Bytes
  pub json : Json
  pub look_path : Bytes → Option Bytes
  pub exists : Bytes → Bool
  -- the program of the parent process by /proc and by ps
  pub parent_link : Option Bytes
  pub parent_name : Option Bytes
  -- os.UserHomeDir, whether GOOS is darwin, and temporary directories
  pub home : Option Bytes
  pub mac : Bool
  pub temp : Temp

-- displayDir; `home` is os.UserHomeDir.
unfoldable pub display_dir : Option Bytes → Bytes → Bytes
display_dir none dir = dir
display_dir (some home) dir = elim (rel_path home dir) [
  | none ↦ dir
  | some rel ↦ if has_prefix rel (codes "..") then dir else join_path (codes "~") rel
]

unfoldable pub display : Option Bytes → Bytes → Bytes
unfolding display_dir
display home path = display_dir home (dir_of path)

abbrev pub asking : Host → Surroundings
asking h = record { getenv = h.sys.getenv; helper = h.helper; pass_file = h.pass_file }

unfoldable pub open_cached : Host → Bytes → Option Vault
unfolding try_cache
open_cached h path =
    (try_cache (h.cached_at path) h.now
      (λ salt key. open_vault_key h.crypto (h.file_at path) salt key)).0

unfoldable pub open_with : Host → Bytes → Bytes → Result Vault
open_with h path pass = open_vault h.crypto (h.file_at path) pass

abbrev pub is_terminal_source : Source → Bool
is_terminal_source by_terminal = true
is_terminal_source (by_askpass p) = false
is_terminal_source (by_file p) = false

-- The ways to open a vault that loading a chain and a batch go through.
unfoldable pub doors : Host → Doors
doors h = record {
  open_cached = open_cached h;
  open_vault = open_with h;
  has_source = not (is_terminal_source (passphrase_source h.sys.getenv));
  ask_source = λ path. (ask_passphrase (asking h) path ask_open []).0;
}

-- unlock of main.go on this host
unfoldable pub unlock_vault : Host → Bytes → Answers → Result Vault × Answers
unlock_vault h = unlock (asking h) (open_cached h) (open_with h)

unfoldable pub active_chain : Host → List Bytes
unfolding split
active_chain h =
    if str_eq (h.sys.getenv (codes "SCHAIN_ACTIVE")) []
    then []
    else split b':' (h.sys.getenv (codes "SCHAIN_ACTIVE"))

unfoldable pub must_find_vault : Host → Result Bytes
must_find_vault h = find_vault h.sys >>= λ p. if str_eq p [] then err no_vault else ok p

-- openNearest
unfoldable pub open_nearest : Host → Answers → Result (Vault × Bytes)
unfolding must_find_vault unlock_vault
open_nearest h answers =
    must_find_vault h >>= λ path. (unlock_vault h path answers).0 >>= λ v. ok (v, path)

-- inheritedFrom: the ancestor that defines a key, among those with a cached key; empty for none.
unfoldable pub defines_cached : Host → Bytes → List Bytes → Bytes
unfolding open_cached has_key
defines_cached h k [] = []
defines_cached h k (p ∷ ps) =
    let rest = defines_cached h k ps in
    elim (open_cached h p) [ none ↦ rest | some v ↦ if has_key k v.secrets then p else rest ]

unfoldable pub inherited_from : Host → Bytes → Bytes
unfolding defines_cached
inherited_from h k = elim (find_vaults h.sys) [
  | err e ↦ []
  | ok [] ↦ []
  | ok (p ∷ ps) ↦ defines_cached h k ps
]

unfoldable pub chain_paths : Host → Result (List Bytes)
chain_paths h = find_vaults h.sys >>= λ ps.
    if length ps == 0
    then err no_vault
    else if str_eq (h.sys.getenv (codes "SCHAIN_NO_INHERIT")) []
    then ok ps
    else ok (take 1 ps)

-- openChain
unfoldable pub open_chain : Host → Answers → Result Chain
unfolding chain_paths
open_chain h answers = chain_paths h >>= λ ps. load_chain (doors h) ps (vault_dirs h.sys ps) answers

-- What syscall.Exec is called with.
pub record Launch : Type 0 where
  pub program : Bytes
  pub arguments : List Bytes
  pub environment : List Bytes

-- From the chain on; `cmdline` is its first element and the others.
unfoldable pub exec_with : Host → Chain → Bytes → List Bytes → Result Launch
exec_with h c name args = elim (h.look_path name) [
  | none ↦ err no_program
  | some bin ↦ env h.sys.getenv c >>= λ m.
      secret_environ h.json h.sys.getenv h.environ m c.paths [] >>= λ es.
      ok (record { program = bin; arguments = name ∷ args; environment = es })
]

unfoldable pub cmd_exec : Host → Bytes → List Bytes → Answers → Result Launch
unfolding open_chain exec_with
cmd_exec h name args answers = open_chain h answers >>= λ c. exec_with h c name args

abbrev pub shell_names : List Bytes
shell_names =
    codes "sh"
    ∷ codes "bash"
    ∷ codes "zsh"
    ∷ codes "fish"
    ∷ codes "ksh"
    ∷ codes "tcsh"
    ∷ codes "csh"
    ∷ codes "dash"
    ∷ []

unfoldable pub parent_program : Host → Bytes
parent_program h = elim h.parent_link [
  | some p ↦ p
  | none ↦ elim h.parent_name [ none ↦ [] | some out ↦ trim_space out ]
]

-- strings.TrimPrefix of a dash
unfoldable pub without_dash : Bytes → Bytes
without_dash [] = []
without_dash (c ∷ s) = if c == b'-' then s else c ∷ s

unfoldable pub parent_shell_path : Host → Bytes
unfolding parent_program without_dash
parent_shell_path h =
    let name = without_dash (parent_program h) in
    if str_eq name [] || not (member (base_of name) shell_names)
    then []
    else if contains name slash
    then name
    else elim (h.look_path name) [ none ↦ [] | some p ↦ p ]

unfoldable pub current_shell : Host → Bytes
current_shell h =
    if not (str_eq (parent_shell_path h) [])
    then parent_shell_path h
    else if not (str_eq (h.sys.getenv (codes "SHELL")) [])
    then h.sys.getenv (codes "SHELL")
    else codes "/bin/sh"

-- enterShell: what syscall.Exec is called with, and the files that were written.
unfoldable pub enter_shell : Host → Chain → Result (Launch × List File)
unfolding current_shell nearest subshell_launch marker_of display
enter_shell h c =
    let named = h.sys.getenv (codes "SCHAIN_SHELL") in
    let shell = if str_eq named [] then current_shell h else named in
    nearest c >>= λ near. env h.sys.getenv c >>= λ m.
    secret_environ h.json h.sys.getenv h.environ m c.paths shell >>= λ es.
    let s = subshell_launch h.temp h.mac (marker_of (display h.home near.1)) shell es in
    ok (record { program = shell; arguments = s.arguments; environment = s.environment }, s.files)

unfoldable pub cmd_subshell : Host → Answers → Result (Launch × List File)
unfolding active_chain open_chain enter_shell
cmd_subshell h answers =
    if length (active_chain h) == 0
    then (open_chain h answers >>= λ c. enter_shell h c)
    else err inside_shell

unfoldable pub all_exist : Host → List Bytes → Result (Unit {0})
all_exist h [] = ok tt
all_exist h (p ∷ ps) = elim (h.exists p) [ true ↦ all_exist h ps | false ↦ err (vault_gone p) ]

unfoldable pub cmd_reload : Host → Answers → Result (Launch × List File)
unfolding active_chain all_exist enter_shell reversed
cmd_reload h answers =
    let active = active_chain h in
    if length active == 0
    then err outside_shell
    else all_exist h active >>= λ u.
        load_chain (doors h) (reversed active) (vault_dirs h.sys (reversed active)) answers >>= λ c.
        enter_shell h c
