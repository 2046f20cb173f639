-- ===== src/Subshell.antt =====
-- subshell.go: the shell that `schain` starts, its prompt marker and its start scripts. What
-- os.MkdirTemp and os.WriteFile do is an argument; the files that are written are part of the result.
pub mod Reader
pub mod Marker
use schain.Prelude.{Bool, true, false, Option, none, some, List, [], ◌∷◌, ◌++◌, map, if◌then◌else◌}
use schain.Prelude.Text.{Bytes, codes, str_eq}
use schain.Prelude.Split.{join}
use schain.Prelude.Paths.{base_of, join_path}
use schain.Quote.{shell_quote, fish_quote}

-- The lines of a text.
unfoldable pub text_of : List Bytes → Bytes
unfolding join
text_of = join 10

unfoldable pub marker_of : Bytes → Bytes
marker_of dir = codes "(schain " ++ (dir ++ codes ") ")

-- autoReloadFn
abbrev pub auto_reload : List Bytes
auto_reload =
    codes ""
    ∷ codes "schain() {"
    ∷ codes "  case \"${1-}\" in"
    ∷ codes "    \"\"|reload) exec env schain reload ;;"
    ∷ codes "    set|unset) command schain \"$@\" && exec env schain reload ;;"
    ∷ codes "    *) command schain \"$@\" ;;"
    ∷ codes "  esac"
    ∷ codes "}"
    ∷ []

-- bashPrompt behind the marker
abbrev pub bash_show : List Bytes
bash_show =
    codes ""
    ∷ codes "if shopt -q promptvars; then"
    ∷ codes "  PS1='${__schain_marker}'\"$PS1\""
    ∷ codes "else"
    ∷ codes "  PS1=\"${__schain_marker//\\\\/\\\\\\\\}$PS1\""
    ∷ codes "fi"
    ∷ []

-- The head of bashInit on macOS, and elsewhere
abbrev pub mac_startup : List Bytes
mac_startup =
    codes "[ -f /etc/profile ] && . /etc/profile"
    ∷ codes "if [ -f \"$HOME/.bash_profile\" ]; then . \"$HOME/.bash_profile\""
    ∷ codes "elif [ -f \"$HOME/.bash_login\" ]; then . \"$HOME/.bash_login\""
    ∷ codes "elif [ -f \"$HOME/.profile\" ]; then . \"$HOME/.profile\""
    ∷ codes "fi"
    ∷ []

abbrev pub linux_startup : List Bytes
linux_startup =
    codes "[ -f /etc/bash.bashrc ] && . /etc/bash.bashrc"
    ∷ codes "[ -f \"$HOME/.bashrc\" ] && . \"$HOME/.bashrc\""
    ∷ []

-- `.zshrc` before the marker and behind it
abbrev pub zsh_startup : List Bytes
zsh_startup = codes "[ -f \"$HOME/.zshrc\" ] && . \"$HOME/.zshrc\"" ∷ []

abbrev pub zsh_show : List Bytes
zsh_show =
    codes ""
    ∷ codes "# Parameter expansion is not recursively evaluated by PROMPT_SUBST, but"
    ∷ codes "# percent escapes are processed afterwards and must be quoted separately."
    ∷ codes "if [[ -o promptpercent ]]; then"
    ∷ codes "  __schain_marker=${__schain_marker//\\%/%%}"
    ∷ codes "fi"
    ∷ codes "if [[ -o promptbang ]]; then"
    ∷ codes "  __schain_marker=${__schain_marker//!/!!}"
    ∷ codes "fi"
    ∷ codes "if [[ -o promptsubst ]]; then"
    ∷ codes "  PROMPT='${__schain_marker}'\"$PROMPT\""
    ∷ codes "else"
    ∷ codes "  PROMPT=\"$__schain_marker$PROMPT\""
    ∷ codes "fi"
    ∷ codes "ZDOTDIR=\"$HOME\""
    ∷ codes ""
    ∷ []

-- fishInit before the marker and behind it
abbrev pub fish_head : List Bytes
fish_head =
    codes "functions -q fish_prompt; and functions -c fish_prompt __schain_prompt"
    ∷ codes "function fish_prompt; printf '%s' "
    ∷ []

abbrev pub fish_tail : List Bytes
fish_tail =
    codes "; __schain_prompt; end"
    ∷ codes "function schain"
    ∷ codes "  if test (count $argv) -eq 0; or test \"$argv[1]\" = reload"
    ∷ codes "    exec env schain reload"
    ∷ codes "  else if contains -- $argv[1] set unset"
    ∷ codes "    command schain $argv; and exec env schain reload"
    ∷ codes "  else"
    ∷ codes "    command schain $argv"
    ∷ codes "  end"
    ∷ codes "end"
    ∷ []

abbrev pub assignment : Bytes
assignment = codes "__schain_marker="

abbrev pub removal : Bytes
removal = codes "\nrm -rf -- "

abbrev pub line_end : Bytes
line_end = 10 ∷ []

unfoldable pub bash_prompt : Bytes → Bytes
unfolding shell_quote text_of
bash_prompt marker = assignment ++ (shell_quote marker ++ text_of bash_show)

-- `mac` is whether GOOS is darwin.
unfoldable pub bash_init : Bool → Bytes → Bytes
unfolding bash_prompt
bash_init mac marker =
    (text_of (if mac then mac_startup else linux_startup) ++ line_end)
    ++ (bash_prompt marker ++ text_of auto_reload)

unfoldable pub zsh_rc : Bytes → Bytes → Bytes
unfolding shell_quote text_of
zsh_rc marker dir =
    (text_of zsh_startup ++ line_end)
    ++ ((assignment ++ (shell_quote marker ++ text_of zsh_show))
        ++ (text_of auto_reload ++ (removal ++ shell_quote dir)))

unfoldable pub fish_init : Bytes → Bytes
unfolding fish_quote text_of
fish_init marker = text_of fish_head ++ (fish_quote marker ++ text_of fish_tail)

-- os.MkdirTemp of a pattern, none where it fails, and whether os.WriteFile succeeds on a path.
pub record Temp : Type 0 where
  pub make_dir : Bytes → Option Bytes
  pub writes : Bytes → Bool

-- A file of a temporary directory, by its path.
abbrev pub File : Type 0
File = Bytes × Bytes

-- The init file removes its own directory.
unfoldable pub with_removal : Bytes → Bytes → Bytes
unfolding shell_quote
with_removal dir content = content ++ (removal ++ (shell_quote dir ++ line_end))

-- The file; none where a step fails, and then nothing is left of it.
unfoldable pub write_temp : Temp → Bytes → Bytes → Option File
unfolding with_removal
write_temp t name content = elim (t.make_dir (codes "schain-")) [
  | none ↦ none
  | some dir ↦
      if t.writes (join_path dir name)
      then some (join_path dir name, with_removal dir content)
      else none
]

unfoldable pub dot_files : Bytes → Bytes → List File
unfolding zsh_rc
dot_files marker dir =
    (join_path dir (codes ".zshenv"), codes "[ -f \"$HOME/.zshenv\" ] && . \"$HOME/.zshenv\"\n")
    ∷ (
      join_path dir (codes ".zprofile"),
      codes "[ -f \"$HOME/.zprofile\" ] && . \"$HOME/.zprofile\"\n",
    )
    ∷ (join_path dir (codes ".zlogin"), codes "[ -f \"$HOME/.zlogin\" ] && . \"$HOME/.zlogin\"\n")
    ∷ (join_path dir (codes ".zshrc"), zsh_rc marker dir ++ line_end)
    ∷ []

unfoldable pub all_written : Temp → List File → Bool
all_written t [] = true
all_written t ((path, content) ∷ fs) = if t.writes path then all_written t fs else false

-- The directory and its files.
unfoldable pub zsh_dot_dir : Temp → Bytes → Option (Bytes × List File)
unfolding dot_files all_written
zsh_dot_dir t marker = elim (t.make_dir (codes "schain-zsh-")) [
  | none ↦ none
  | some dir ↦
      if all_written t (dot_files marker dir) then some (dir, dot_files marker dir) else none
]

pub record Start : Type 0 where
  pub arguments : List Bytes
  pub environment : List Bytes
  pub files : List File

unfoldable pub plain_arguments : Bool → Bytes → List Bytes
plain_arguments mac shell = if mac then shell ∷ codes "-l" ∷ [] else shell ∷ []

unfoldable pub subshell_launch : Temp → Bool → Bytes → Bytes → List Bytes → Start
unfolding bash_init write_temp zsh_dot_dir fish_init plain_arguments str_eq
subshell_launch t mac marker shell env =
    let plain : Start = record {
      arguments = plain_arguments mac shell;
      environment = env;
      files = [];
    } in
    if str_eq (base_of shell) (codes "bash")
    then (elim (write_temp t (codes "bashrc") (bash_init mac marker)) [
      | none ↦ plain
      | some (rc, content) ↦ record plain {
        arguments = shell ∷ codes "--rcfile" ∷ rc ∷ [];
        files = (rc, content) ∷ [];
      }
    ])
    else if str_eq (base_of shell) (codes "zsh")
    then (elim (zsh_dot_dir t marker) [
      | none ↦ plain
      | some (dir, files) ↦ record plain {
        environment = env ++ (codes "ZDOTDIR=" ++ dir) ∷ [];
        files = files;
      }
    ])
    else if str_eq (base_of shell) (codes "fish")
    then record plain {
      arguments = plain_arguments mac shell ++ codes "-C" ∷ fish_init marker ∷ [];
    }
    else plain
