-- ===== src/Subshell/Marker.antt =====
-- subshell.go: what the shells read where the marker stands.
use mathlib.Core.Path.{subst}
use schain.Prelude.{
  ◌≡◌, refl, sym, Bool, true, false, some, [], ◌∷◌, ◌++◌, drop, length, if◌then◌else◌, append_assoc,
}
use schain.Prelude.Text.{Bytes, codes}
use schain.Quote.{shell_quote, fish_quote}
use schain.Quote.Words.{
  plain, EndsWord, sh_word, sh_word-shell_quote, fish_word, fish_word-fish_quote,
}
use schain.Subshell.Reader.{line_start, word, place_after}
use schain.Subshell.{
  text_of, bash_init, bash_show, auto_reload, mac_startup, linux_startup, zsh_rc, zsh_show,
  zsh_startup, fish_init, fish_tail, assignment, removal, line_end, with_removal,
}

-- A script assigns the marker at the start of a line, which is not inside a quoted text or a comment;
-- the shell reads it as one word. The script ends with the removal of the directory, on a line of its
-- own, and its name is read as one word too.
pub record Assigns (script marker dir : Bytes) : Type 0 where
  pub before : Bytes
  pub value : Bytes
  pub after : Bytes
  pub middle : Bytes
  pub target : Bytes
  pub is_assigned : script ≡ before ++ (codes "__schain_marker=" ++ value)
  pub on_new_line : place_after line_start before ≡ line_start
  pub read_back : sh_word plain value ≡ some (marker, after)
  pub is_removed : after ≡ middle ++ (codes "rm -rf -- " ++ target)
  pub removed_on_new_line : place_after word middle ≡ line_start
  pub target_back : sh_word plain target ≡ some (dir, 10 ∷ [])

assigned :
    (head show marker dir : Bytes)
    → place_after line_start head ≡ line_start
    → place_after word (show ++ 10 ∷ []) ≡ line_start
    → EndsWord (show ++ (removal ++ (shell_quote dir ++ line_end)))
    → Assigns
        (head
          ++ (assignment
              ++ (shell_quote marker ++ (show ++ (removal ++ (shell_quote dir ++ line_end))))))
        marker
        dir
assigned head show marker dir starts ends h = record {
  before = head;
  value = shell_quote marker ++ (show ++ (removal ++ (shell_quote dir ++ line_end)));
  after = show ++ (removal ++ (shell_quote dir ++ line_end));
  middle = show ++ 10 ∷ [];
  target = shell_quote dir ++ line_end;
  is_assigned = refl;
  on_new_line = starts;
  read_back = sh_word-shell_quote marker _ h;
  is_removed = sym (append_assoc show (10 ∷ []) _);
  removed_on_new_line = ends;
  target_back = sh_word-shell_quote dir line_end refl;
}

flat_bash :
    (head a q show reload r : Bytes)
    → (head ++ ((a ++ (q ++ show)) ++ reload)) ++ r ≡ head ++ (a ++ (q ++ ((show ++ reload) ++ r)))
flat_bash head a q show reload r = simp append_assoc

flat_zsh :
    (head a q show reload r d e : Bytes)
    → (head ++ ((a ++ (q ++ show)) ++ (reload ++ (r ++ d)))) ++ e
      ≡ head ++ (a ++ (q ++ ((show ++ reload) ++ (r ++ (d ++ e)))))
flat_zsh head a q show reload r d e = simp append_assoc

bash_startup : Bool → Bytes
bash_startup mac = text_of (if mac then mac_startup else linux_startup) ++ line_end

bash_init-Assigns :
    (mac : Bool) (marker dir : Bytes) → Assigns (with_removal dir (bash_init mac marker)) marker dir
unfolding with_removal bash_init bash_startup text_of place_after
bash_init-Assigns mac marker dir =
    subst (λ t. Assigns t marker dir)
      (sym (
        flat_bash (bash_startup mac) assignment (shell_quote marker) (text_of bash_show)
          (text_of auto_reload) (removal ++ (shell_quote dir ++ line_end))))
      (assigned (bash_startup mac) (text_of bash_show ++ text_of auto_reload) marker dir
        (at_start mac) refl refl)
  where
    at_start : (mac : Bool) → place_after line_start (bash_startup mac) ≡ line_start
    at_start true = refl
    at_start false = refl

zsh_rc-Assigns : (marker dir : Bytes) → Assigns (zsh_rc marker dir ++ line_end) marker dir
unfolding zsh_rc text_of place_after
zsh_rc-Assigns marker dir =
    subst (λ t. Assigns t marker dir)
      (sym (
        flat_zsh (text_of zsh_startup ++ line_end) assignment (shell_quote marker)
          (text_of zsh_show) (text_of auto_reload) removal (shell_quote dir) line_end))
      (assigned (text_of zsh_startup ++ line_end) (text_of zsh_show ++ text_of auto_reload) marker
        dir refl refl refl)

-- A script defines the prompt of fish, with no quote left open before it, as a function that prints
-- the marker, read as one word, and then the prompt that was there.
abbrev pub FishShows : Bytes → Bytes → Type 0
FishShows script marker =
    (before : Bytes) × (value : Bytes) × (rest : Bytes) × (script
      ≡ before ++ (codes "\nfunction fish_prompt; printf '%s' " ++ value))
    × (place_after line_start (before ++ 10 ∷ []) ≡ line_start)
    × (fish_word plain value ≡ some (marker, codes "; __schain_prompt; end\n" ++ rest))

fish_init-FishShows : (marker : Bytes) → FishShows (fish_init marker) marker
unfolding fish_init text_of place_after
fish_init-FishShows marker = (
  codes "functions -q fish_prompt; and functions -c fish_prompt __schain_prompt",
  fish_quote marker ++ text_of fish_tail,
  fish_rest,
  refl,
  refl,
  fish_word-fish_quote marker (text_of fish_tail) refl,
)
  where
    fish_rest : Bytes
    fish_rest = drop (length (codes "; __schain_prompt; end\n")) (text_of fish_tail)

-- Whatever bytes the marker and the name of the temporary directory hold: the script that is written
-- for bash and the one for zsh assign exactly the marker, as one word at the start of a line that is
-- not inside a quoted text or a comment, and end with the removal of exactly that directory, as one
-- word, on such a line too; and the script for fish makes a prompt that prints exactly the marker, as
-- one word, in front of the prompt that was there.
pub scripts-marker :
    (mac : Bool) (marker dir : Bytes)
    → Assigns (with_removal dir (bash_init mac marker)) marker dir
      × Assigns (zsh_rc marker dir ++ line_end) marker dir
      × FishShows (fish_init marker) marker
scripts-marker mac marker dir =
    (bash_init-Assigns mac marker dir, zsh_rc-Assigns marker dir, fish_init-FishShows marker)
