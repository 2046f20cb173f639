-- ===== src/Terminal.antt =====
-- term.go: reading one line of a passphrase, byte by byte. What the reader gives is a list; a reader
-- with nothing more is at its end.
use schain.Prelude.{
  ℕ, Bool, true, false, not, ◌||◌, ◌&&◌, ◌≡◌, refl, ◌⊎◌, inl, inr, Option, none, some, List, [],
  ◌∷◌, ◌++◌, map, arith, append-nil, append_assoc, if◌then◌else◌, ◌==◌, Bool-cases,
}
use schain.Prelude.Text.{Bytes, codes, contains, str_eq}
use schain.Fail.{Fail, Result, ok, err, end_of_input, ioctl_failed}

-- One call of Read on a buffer of one byte.
pub data Read : Type 0 where
  byte : ℕ → Read
  nothing : Read
  at_end : Read
  failing : Fail → Read

-- The end of the input: the line so far, unless it is empty.
unfoldable pub at_eof : Bytes → Result Bytes
at_eof [] = err end_of_input
at_eof (c ∷ s) = ok (c ∷ s)

unfoldable pub read_on : Bytes → List Read → Result Bytes × List Read
unfolding at_eof
read_on line [] = (at_eof line, [])
read_on line (nothing ∷ rs) = read_on line rs
read_on line (at_end ∷ rs) = (at_eof line, rs)
read_on line (failing e ∷ rs) = (err e, rs)
read_on line (byte c ∷ rs) = elim (c == 10) [
  | true ↦ (ok line, rs)
  | false ↦ read_on (if c == 13 then line else line ++ c ∷ []) rs
]

unfoldable pub read_line : List Read → Result Bytes × List Read
unfolding read_on
read_line = read_on []

-- The settings of a terminal: the flag ECHO, and the others.
pub record Termios : Type 0 where
  pub echo : Bool
  pub others : ℕ

-- The controlling terminal, where it opens: its settings, what it gives, and whether they can be read,
-- changed to no echo, and set back. Standard input stands in for it.
pub record Tty : Type 0 where
  pub opens : Bool
  pub settings : Termios
  pub can_get : Bool
  pub can_hide : Bool
  pub can_restore : Bool
  pub typed : List Read
  pub stdin : List Read

-- The line, the settings under which a terminal was read, if one was, and those that are left.
pub record Answer : Type 0 where
  pub line : Result Bytes
  pub during : Option Termios
  pub left : Termios

abbrev pub hidden : Termios → Termios
hidden t = record t { echo = false }

unfoldable pub read_secret : Tty → Answer
unfolding read_line
read_secret d =
    if not d.opens
    then record { line = (read_line d.stdin).0; during = none; left = d.settings }
    else if not d.can_get
    then record { line = err ioctl_failed; during = none; left = d.settings }
    else if not d.can_hide
    then record { line = err ioctl_failed; during = none; left = d.settings }
    else record {
      line = (read_line d.typed).0;
      during = some (hidden d.settings);
      left = if d.can_restore then d.settings else hidden d.settings;
    }

-- ReadString up to a line end: the text with its line end, and whether it came to one.
unfoldable pub read_string : Bytes → List Read → Bytes × Bool
read_string line [] = (line, false)
read_string line (nothing ∷ rs) = read_string line rs
read_string line (at_end ∷ rs) = (line, false)
read_string line (failing e ∷ rs) = (line, false)
read_string line (byte c ∷ rs) = elim (c == 10) [
  | true ↦ (line ++ c ∷ [], true)
  | false ↦ read_string (line ++ c ∷ []) rs
]

unfoldable pub confirm : Tty → Bool
unfolding read_string str_eq
confirm d =
    let (line, ended) = read_string [] (if d.opens then d.typed else d.stdin) in
    if not ended && str_eq line []
    then false
    else str_eq line (codes "y\n") || str_eq line (codes "Y\n") || str_eq line (codes "yes\n")

-- A line is read from a terminal only while echo is off and all else is as it was, and the terminal is
-- left as it was found, unless the call that sets it back fails.
pub read_secret-hidden :
    (d : Tty)
    → d.can_restore ≡ true
    → ((read_secret d).left ≡ d.settings)
      × (((read_secret d).during ≡ none) ⊎ ((read_secret d).during ≡ some (hidden d.settings)))
unfolding read_secret
read_secret-hidden d h = elim (Bool-cases d.opens) [
  | inr n ↦ rw n (refl, inl refl)
  | inl y ↦ elim (Bool-cases d.can_get) [
    | inr n ↦ rw (y, n) (refl, inl refl)
    | inl z ↦ elim (Bool-cases d.can_hide) [
      | inr n ↦ rw (y, z, n) (refl, inl refl)
      | inl u ↦ rw (y, z, u, h) (refl, inr refl)
    ]
  ]
]

-- A text without its carriage returns.
unfoldable pub without_returns : Bytes → Bytes
without_returns [] = []
without_returns (c ∷ s) = let rest = without_returns s in if c == 13 then rest else c ∷ rest

read_on-map :
    (s line : Bytes) (rs : List Read)
    → contains s 10 ≡ false
    → read_on line (map byte s ++ byte 10 ∷ rs) ≡ (ok (line ++ without_returns s), rs)
unfolding read_on contains without_returns
read_on-map [] line rs h = rw (append-nil line) refl
read_on-map (c ∷ s) line rs h = ground (
  arith,
  read_on-map s line rs,
  read_on-map s (line ++ c ∷ []) rs,
  append_assoc line (c ∷ []) (without_returns s),
)

-- A line that is typed, an empty one included, is read up to its end, without its carriage returns,
-- and what follows is left for the next read.
pub read_line-map :
    (s : Bytes) (rs : List Read)
    → contains s 10 ≡ false
    → read_line (map byte s ++ byte 10 ∷ rs) ≡ (ok (without_returns s), rs)
unfolding read_line
read_line-map s rs h = read_on-map s [] rs h
