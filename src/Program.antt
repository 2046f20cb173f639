-- ===== src/Program.antt =====
-- main.go, run: every command of the program, from its arguments to what it leaves, on a host. What a
-- command asks for beside the host (random bytes, the mark of a revision, the store of the operating
-- system, whether the output is a terminal) is the record `Supplies`.
pub mod Seen
pub mod Origins
pub mod Edited
pub mod Stored
pub mod Writes
pub mod Opened
use schain.Prelude.{
  ℕ, ◌==◌, Bool, true, false, ◌||◌, not, Option, none, some, List, [], ◌∷◌, if◌then◌else◌, length,
}
use schain.Prelude.Text.{Bytes, codes, str_eq}
use schain.Fail.{Fail, Result, ok, err, ◌>>=◌}
use schain.Vault.{Vault, Mark, keep}
use schain.Format.{new_vault, save}
use schain.History.{history_revert, history_switch, history_purge}
use schain.History.Shown.{Entry, Line, history_table, show_key}
use schain.Unlock.{Answers}
use schain.Askpass.{new_passphrase}
use schain.Discover.{System, work_dir, find_vault, find_vaults}
use schain.Session.{
  Host, Launch, asking, must_find_vault, unlock_vault, open_nearest, inherited_from, cmd_exec,
  cmd_subshell, cmd_reload,
}
use schain.Subshell.{File}
use schain.Assign.{Site, cmd_set}
use schain.Unset.{missing_key, cmd_unset}
use schain.Passwd.{cmd_passwd}
use schain.Listing.{Row, cmd_ls}
use schain.Remember.{Keeper, cmd_remember, cmd_forget}
use schain.Worktree.{Worktree}
use schain.Report.{Place, cmd_worktree}
use schain.Dispatch.{HistoryCommand, Command, run}

pub record Supplies : Type 0 where
  pub salt : Bytes
  pub nonce : Bytes
  pub mark : Mark
  pub keeper : Keeper
  pub tty : Bool
  -- the vault files by the time a command writes one
  pub later_at : Bytes → Option Bytes

-- What a command leaves when it does not fail.
pub data Outcome : Type 0 where
  -- a program in place of this one, with the files written for it
  starts : Launch → List File → Outcome
  -- the path of a vault, and its new file
  writes : Bytes → Bytes → Outcome
  unchanged : Outcome
  lists : List Row → Outcome
  -- how many vaults are remembered, of how many
  remembers : ℕ → ℕ → Outcome
  forgets : List Bytes → Outcome
  reports : Worktree → List (Bytes × Place) → Outcome
  tells : List Entry → Outcome
  history_off : Outcome
  no_history_yet : Outcome
  tells_key : Option (Bool × List Line) → Outcome
  usage_text : Outcome
  version_text : Outcome
  history_usage : Outcome

-- historyShow once the vault is open.
unfoldable pub history_show : Bytes → Vault → Result Outcome
unfolding history_table show_key keep
history_show key v =
    if not (str_eq key [])
    then (show_key v key >>= λ r. ok (tells_key r))
    else if length v.history == 0
    then ok (if keep v == 0 then history_off else no_history_yet)
    else history_table v >>= λ es. ok (tells es)

module _ (h : Host) (s : Supplies) where
  -- SCHAIN_FORCE
  abbrev pub is_forced : Bool
  is_forced = not (str_eq (h.sys.getenv (codes "SCHAIN_FORCE")) [])

  unfoldable pub store_vault : Bytes → Vault → Result (Vault × Bytes)
  store_vault path v = save h.crypto is_forced s.nonce (s.later_at path) v

  -- newPassphrase and newVault
  unfoldable pub create_vault : Bytes → Answers → Result (Vault × Answers)
  create_vault path answers =
      let (typed, rest) = new_passphrase (asking h) path answers in
      typed >>= λ pass. ok (new_vault h.crypto s.salt pass, rest)

  unfoldable pub open_here : Bytes → Answers → Result (Vault × Answers)
  open_here path answers =
      let (opened, rest) = unlock_vault h path answers in opened >>= λ v. ok (v, rest)

  abbrev pub site : Site
  site = record {
    found = find_vault h.sys;
    work_dir = work_dir h.sys;
    create = create_vault;
    unlock = open_here;
    store = store_vault;
  }

  unfoldable pub set_here : List Bytes → Answers → Result (Vault × Bytes × Bytes)
  unfolding cmd_set
  set_here = cmd_set h.sys.getenv site s.mark

  -- The error of unset for a missing key.
  unfoldable pub missing_here : Bytes → Fail
  unfolding missing_key inherited_from find_vaults
  missing_here k =
      missing_key (inherited_from h k) (elim (find_vaults h.sys) [ err e ↦ 0 | ok ps ↦ length ps ])
        k

  unfoldable pub unset_here : List Bytes → Answers → Result (Vault × Bytes × Bytes)
  unfolding cmd_unset missing_here
  unset_here args answers =
      cmd_unset missing_here s.mark (must_find_vault h) (λ path. (unlock_vault h path answers).0)
        store_vault args

  -- The end of a history command, which saves where something has changed.
  unfoldable pub store_change : Bytes → Option Vault → Result Outcome
  unfolding store_vault
  store_change path none = ok unchanged
  store_change path (some v) = store_vault path v >>= λ saved. ok (writes path saved.1)

  unfoldable pub change_history : (Result Vault → Result (Option Vault)) → Answers → Result Outcome
  unfolding open_nearest store_change
  change_history change answers = change (open_nearest h answers >>= λ o. ok o.0) >>= λ done.
      must_find_vault h >>= λ path. store_change path done

  unfoldable pub history_here : HistoryCommand → Answers → Result Outcome
  unfolding change_history history_show
  history_here (HistoryCommand.revert args) answers =
      change_history (λ opened. history_revert s.mark opened args) answers
  history_here (HistoryCommand.purge args) answers =
      change_history (λ opened. history_purge opened args) answers
  history_here (HistoryCommand.switch off args) answers =
      change_history (λ opened. history_switch off opened args) answers
  history_here HistoryCommand.history_help answers = ok history_usage
  history_here (HistoryCommand.show key) answers =
      open_nearest h answers >>= λ o. history_show key o.0

  unfoldable pub perform : Command → Answers → Result Outcome
  unfolding history_here set_here unset_here
  perform Command.subshell answers = cmd_subshell h answers >>= λ l. ok (starts l.0 l.1)
  perform Command.reload answers = cmd_reload h answers >>= λ l. ok (starts l.0 l.1)
  perform Command.help answers = ok usage_text
  perform Command.version answers = ok version_text
  perform (Command.exec name args) answers = cmd_exec h name args answers >>= λ l. ok (starts l [])
  perform (Command.set args) answers = set_here args answers >>= λ w. ok (writes w.2 w.1)
  perform (Command.unset args) answers = unset_here args answers >>= λ w. ok (writes w.2 w.1)
  perform (Command.ls args) answers = cmd_ls h s.tty args answers >>= λ rows. ok (lists rows)
  perform Command.passwd answers =
      (cmd_passwd h s.later_at s.salt s.nonce answers).0 >>= λ w. ok (writes w.0 w.2)
  perform (Command.remember args) answers =
      cmd_remember h s.keeper args answers >>= λ n. ok (remembers n.0 n.1)
  perform (Command.forget args) answers = cmd_forget h s.keeper args >>= λ ps. ok (forgets ps)
  perform (Command.worktree args) answers =
      cmd_worktree h.sys s.keeper.disk args >>= λ r. ok (reports r.0 r.1)
  perform (Command.history c) answers = history_here c answers

  unfoldable pub run_program : List Bytes → Answers → Result Outcome
  unfolding perform
  run_program args answers = run args >>= λ c. perform c answers

-- The host with the vault file that a command has written.
abbrev pub with_file : Bytes → Bytes → Host → Host
with_file path file h = record h {
  sys = record h.sys { is_vault_file = λ p. str_eq path p || h.sys.is_vault_file p };
  file_at = λ p. if str_eq path p then some file else h.file_at p;
}
