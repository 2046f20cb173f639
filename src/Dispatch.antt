-- ===== src/Dispatch.antt =====
-- main.go: which command the arguments of schain name, and what it is given.
use schain.Prelude.{Bool, true, false, ◌||◌, ◌≡◌, refl, ap, List, [], ◌∷◌, arith, if◌then◌else◌}
use schain.Prelude.Text.{Bytes, codes, str_eq}
use schain.Fail.{Result, ok, err, usage, unknown_command}

pub data HistoryCommand : Type 0 where
  revert purge : List Bytes → HistoryCommand
  -- whether the verb is `off`
  switch : Bool → List Bytes → HistoryCommand
  history_help : HistoryCommand
  show : Bytes → HistoryCommand

pub data Command : Type 0 where
  subshell passwd reload help version : Command
  -- the program and its arguments
  exec : Bytes → List Bytes → Command
  set unset ls remember forget worktree : List Bytes → Command
  history : HistoryCommand → Command

-- cmdHistory
unfoldable pub history_command : List Bytes → Result HistoryCommand
unfolding str_eq
history_command [] = ok (show [])
history_command (verb ∷ args) =
    if str_eq verb (codes "revert")
    then ok (revert args)
    else if str_eq verb (codes "on")
    then ok (switch false args)
    else if str_eq verb (codes "off")
    then ok (switch true args)
    else if str_eq verb (codes "purge")
    then ok (purge args)
    else if str_eq verb (codes "-h") || str_eq verb (codes "--help")
    then ok history_help
    else elim args [ [] ↦ ok (show verb) | a ∷ more ↦ err usage ]

abbrev with_history : Result HistoryCommand → Result Command
with_history (err e) = err e
with_history (ok c) = ok (history c)

abbrev with_program : List Bytes → Result Command
with_program [] = err usage
with_program (p ∷ args) = ok (exec p args)

-- The switch of `run` on the name of a command.
unfoldable pub command_of : Bytes → List Bytes → Result Command
unfolding history_command str_eq
command_of name args =
    if str_eq name (codes "-h") || str_eq name (codes "--help") || str_eq name (codes "help")
    then ok help
    else if str_eq name (codes "-v")
        || str_eq name (codes "--version")
        || str_eq name (codes "version")
    then ok version
    else if str_eq name (codes "exec")
    then with_program args
    else if str_eq name (codes "set")
    then ok (set args)
    else if str_eq name (codes "unset")
    then ok (unset args)
    else if str_eq name (codes "ls") || str_eq name (codes "list")
    then ok (ls args)
    else if str_eq name (codes "passwd")
    then ok passwd
    else if str_eq name (codes "remember")
    then ok (remember args)
    else if str_eq name (codes "forget")
    then ok (forget args)
    else if str_eq name (codes "reload")
    then ok reload
    else if str_eq name (codes "worktree") || str_eq name (codes "wt")
    then ok (worktree args)
    else if str_eq name (codes "history")
    then with_history (history_command args)
    else err (unknown_command name)

unfoldable pub run : List Bytes → Result Command
unfolding command_of
run [] = ok subshell
run (name ∷ args) = command_of name args

-- The arguments that name a command.
unfoldable pub spell_history : HistoryCommand → List Bytes
spell_history (revert args) = codes "revert" ∷ args
spell_history (purge args) = codes "purge" ∷ args
spell_history (switch true args) = codes "off" ∷ args
spell_history (switch false args) = codes "on" ∷ args
spell_history history_help = codes "--help" ∷ []
spell_history (show k) = k ∷ []

unfoldable pub spell : Command → List Bytes
unfolding spell_history
spell subshell = []
spell passwd = codes "passwd" ∷ []
spell reload = codes "reload" ∷ []
spell help = codes "help" ∷ []
spell version = codes "version" ∷ []
spell (exec p args) = codes "exec" ∷ p ∷ args
spell (set args) = codes "set" ∷ args
spell (unset args) = codes "unset" ∷ args
spell (ls args) = codes "ls" ∷ args
spell (remember args) = codes "remember" ∷ args
spell (forget args) = codes "forget" ∷ args
spell (worktree args) = codes "worktree" ∷ args
spell (history c) = codes "history" ∷ spell_history c

-- The words that `schain history` takes for something else than a key.
abbrev pub is_verb : Bytes → Bool
is_verb k =
    str_eq k (codes "revert")
    || str_eq k (codes "on")
    || str_eq k (codes "off")
    || str_eq k (codes "purge")
    || str_eq k (codes "-h")
    || str_eq k (codes "--help")

-- A command that its arguments can name: a key whose history is shown is none of those words.
abbrev pub CanSpell : Command → Type 0
CanSpell (history (show k)) = is_verb k ≡ false
CanSpell _ = Unit

history_command-show : (k : Bytes) → is_verb k ≡ false → history_command (k ∷ []) ≡ ok (show k)
unfolding history_command
history_command-show k h = ground (arith, h)

-- Every command of the program is reached: its arguments are taken for the command itself, with the
-- arguments that it gets. The key of a history that is shown must be none of the verbs.
pub run-spell : (c : Command) → CanSpell c → run (spell c) ≡ ok c
unfolding run spell str_eq
run-spell subshell h = refl
run-spell passwd h = refl
run-spell reload h = refl
run-spell help h = refl
run-spell version h = refl
run-spell (exec p args) h = refl
run-spell (set args) h = refl
run-spell (unset args) h = refl
run-spell (ls args) h = refl
run-spell (remember args) h = refl
run-spell (forget args) h = refl
run-spell (worktree args) h = refl
run-spell (history (revert args)) h = refl
run-spell (history (purge args)) h = refl
run-spell (history (switch true args)) h = refl
run-spell (history (switch false args)) h = refl
run-spell (history history_help) h = refl
run-spell (history (show k)) h = ap with_history (history_command-show k h)
