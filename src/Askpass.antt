-- ===== src/Askpass.antt =====
-- askpass.go, and the passphrases of main.go: where a passphrase comes from. What a helper program and
-- the file system do is an argument, and so is what the terminal answers.
pub mod Lines
pub mod Sources
use schain.Prelude.{
  ℕ, zero, suc, ◌+◌, ◌-◌, ◌%◌, Bool, true, false, ◌&&◌, ◌||◌, not, Option, none, some, List, [],
  ◌∷◌, ◌++◌, if◌then◌else◌, ltb, leb, ◌==◌, length, take,
}
use schain.Prelude.Text.{Bytes, codes, str_eq, cut_byte}
use schain.Fail.{
  Fail, Result, ok, err, ◌>>=◌, abort, gave_up, not_started, no_output, overlong, loose_mode,
  not_regular, io_error, empty_passphrase, passphrases_differ,
}
use schain.Unlock.{Answers, prompt}
use schain.Vault.{Vault}

abbrev pub max_passphrase : ℕ
max_passphrase = 4096

-- Which source is configured, and its setting; SCHAIN_ASKPASS comes first.
pub data Source : Type 0 where
  by_askpass : Bytes → Source
  by_file : Bytes → Source
  by_terminal : Source

unfoldable pub passphrase_source : (Bytes → Bytes) → Source
passphrase_source getenv =
    if not (str_eq (getenv (codes "SCHAIN_ASKPASS")) [])
    then by_askpass (getenv (codes "SCHAIN_ASKPASS"))
    else if not (str_eq (getenv (codes "SCHAIN_PASSPHRASE_FILE")) [])
    then by_file (getenv (codes "SCHAIN_PASSPHRASE_FILE"))
    else by_terminal

-- bytes.TrimSuffix of a carriage return
unfoldable pub trim_return : Bytes → Bytes
trim_return [] = []
trim_return (c ∷ []) = if c == 13 then [] else c ∷ []
trim_return (c ∷ d ∷ s) = c ∷ trim_return (d ∷ s)

-- The text up to the first line end.
unfoldable pub line_of : Bytes → Bytes
unfolding cut_byte
line_of b = elim (cut_byte b 10) [ none ↦ b | some (a, rest) ↦ a ]

unfoldable pub first_line : Bytes → Bytes
unfolding line_of trim_return
first_line b = trim_return (line_of b)

-- Write of `capped`: none where it refuses.
unfoldable pub capped_write : Bytes → Bytes → Option Bytes
capped_write buf p = if ltb max_passphrase (length buf + length p) then none else some (buf ++ p)

-- The copy of a helper's output in the pieces that it arrives in, up to the first refusal; the test
-- says whether there was none.
unfoldable pub copy_output : Bytes → List Bytes → Bytes × Bool
unfolding capped_write
copy_output buf [] = (buf, true)
copy_output buf (p ∷ ps) = elim (capped_write buf p) [
  | none ↦ (buf, false)
  | some b ↦ copy_output b ps
]

-- How the helper ended: with success, with another status or by a signal (an ExitError), or it could
-- not be started.
pub data Ending : Type 0 where
  succeeded exited unstarted : Ending

pub record Helper : Type 0 where
  pub output : List Bytes
  pub ending : Ending

-- cmd.Run: a failed copy is the error only of a helper that ended with success.
pub data RunError : Type 0 where
  fine exit_error other_error : RunError

unfoldable pub run_error : Ending → Bool → RunError
run_error unstarted copied = other_error
run_error exited copied = exit_error
run_error succeeded true = fine
run_error succeeded false = other_error

unfoldable pub run_askpass : Helper → Result Bytes
unfolding copy_output run_error first_line
run_askpass h =
    let (buf, copied) = copy_output [] h.output in
    let pass = first_line buf in
    elim (run_error h.ending copied) [
      | exit_error ↦ err gave_up
      | other_error ↦ err (abort not_started)
      | fine ↦ if length pass == 0 then err no_output else ok pass
    ]

-- What the file system says of a passphrase file: whether Open, Stat and reading succeed, and what
-- Stat and reading give.
pub record PassFile : Type 0 where
  pub opens : Bool
  pub has_stat : Bool
  pub is_regular : Bool
  pub perm : ℕ
  pub reads : Bool
  pub content : Bytes

-- What is wrong with the file before its text counts; `perm & 0o077` are the low six bits.
unfoldable pub file_problem : PassFile → Option Fail
file_problem f =
    if not f.opens || not f.has_stat
    then some io_error
    else if not f.is_regular
    then some not_regular
    else if not (f.perm % 64 == 0)
    then some loose_mode
    else if not f.reads
    then some io_error
    else none

unfoldable pub check_line : Bytes → Result Bytes
check_line pass =
    if ltb max_passphrase (length pass)
    then err (abort overlong)
    else if length pass == 0
    then err (abort no_output)
    else ok pass

-- ReadFull fills the buffer, or stops at the end of the file.
unfoldable pub read_passphrase_file : PassFile → Result Bytes
unfolding file_problem check_line first_line
read_passphrase_file f = elim (file_problem f) [
  | some e ↦ err (abort e)
  | none ↦ check_line (first_line (take (max_passphrase + 2) f.content))
]

pub data Action : Type 0 where
  ask_open ask_new : Action

-- What the surroundings do when they are asked: the program on a path and an action, and a file.
pub record Surroundings : Type 0 where
  pub getenv : Bytes → Bytes
  pub helper : Bytes → Bytes → Action → Helper
  pub pass_file : Bytes → PassFile

module _ (w : Surroundings) where
  unfoldable pub ask_source_of : Source → Bytes → Action → Answers → Result Bytes × Answers
  unfolding run_askpass read_passphrase_file prompt
  ask_source_of (by_askpass prog) path action answers =
      (run_askpass (w.helper prog path action), answers)
  ask_source_of (by_file name) path action answers =
      (read_passphrase_file (w.pass_file name), answers)
  ask_source_of by_terminal path action answers = prompt answers

  unfoldable pub ask_passphrase : Bytes → Action → Answers → Result Bytes × Answers
  unfolding ask_source_of passphrase_source
  ask_passphrase = ask_source_of (passphrase_source w.getenv)

  -- The repeat, for what was typed.
  unfoldable pub repeat_of : Source → Bytes → Answers → Result Bytes × Answers
  unfolding prompt
  repeat_of by_terminal p answers =
      let (again, rest) = prompt answers in
      elim again [
        | err e ↦ (err e, rest)
        | ok q ↦ if not (str_eq p q) then (err passphrases_differ, rest) else (ok p, rest)
      ]
  repeat_of (by_askpass prog) p answers = (ok p, answers)
  repeat_of (by_file name) p answers = (ok p, answers)

  unfoldable pub new_passphrase : Bytes → Answers → Result Bytes × Answers
  unfolding ask_passphrase repeat_of
  new_passphrase path answers =
      let (got, rest) = ask_passphrase path ask_new answers in
      elim got [
        | err e ↦ (err e, rest)
        | ok p ↦
            if length p == 0
            then (err empty_passphrase, rest)
            else repeat_of (passphrase_source w.getenv) p rest
      ]

  -- unlock of main.go, with openCached and openVault as arguments.
  unfoldable pub unlock :
      (Bytes → Option Vault)
      → (Bytes → Bytes → Result Vault)
      → Bytes
      → Answers
      → Result Vault × Answers
  unfolding ask_passphrase
  unlock open_cached open_vault path answers = elim (open_cached path) [
    | some v ↦ (ok v, answers)
    | none ↦
        let (got, rest) = ask_passphrase path ask_open answers in
        elim got [ err e ↦ (err e, rest) | ok p ↦ (open_vault path p, rest) ]
  ]
