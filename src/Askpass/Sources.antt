-- ===== src/Askpass/Sources.antt =====
-- askpass.go and main.go: what a passphrase that is taken has gone through.
use schain.Prelude.{
  ◌+◌, ◌%◌, ◌≤◌, ◌<◌, ◌≡◌, refl, ◌∙◌, Bool, true, false, none, inl, inr, List, [], ◌∷◌, ◌++◌, arith,
  if◌then◌else◌, ltb, ◌==◌, Bool-cases, Option-cases, length, take, length-append, append-nil,
  append_assoc, ap,
}
use schain.Prelude.Text.{Bytes, contains}
use schain.Fail.{Fail, ok, err, abort, is_abort, gave_up, not_started, no_output}
use schain.Askpass.{
  max_passphrase, first_line, capped_write, copy_output, Helper, run_error, fine, exit_error,
  other_error, run_askpass, file_problem, check_line, succeeded, Ending, PassFile,
  read_passphrase_file,
}
use schain.Askpass.Lines.{contains-first_line, length-first_line, first_line-take}

-- The buffer never grows past its capacity.
length-copy_output :
    (buf : Bytes) (ps : List Bytes)
    → length buf ≤ max_passphrase
    → length (copy_output buf ps).0 ≤ max_passphrase
unfolding copy_output capped_write
length-copy_output buf [] h = h
length-copy_output buf (p ∷ ps) h = elim (Bool-cases (ltb max_passphrase (length buf + length p))) [
  | inl y ↦ ground (arith, y)
  | inr n ↦ ground (arith, n, length-append buf p, length-copy_output (buf ++ p) ps)
]

-- A passphrase as a source hands it over: one line, not empty, of bounded length.
pub record IsPassphrase (p : Bytes) : Type 0 where
  pub one_line : contains p 10 ≡ false
  pub some_byte : 0 < length p
  pub bounded : length p ≤ max_passphrase

-- All of a helper's output.
abbrev pub all_of : List Bytes → Bytes
all_of [] = []
all_of (p ∷ ps) = p ++ all_of ps

copy_output-all_of :
    (buf : Bytes) (ps : List Bytes)
    → (copy_output buf ps).1 ≡ true
    → (copy_output buf ps).0 ≡ buf ++ all_of ps
unfolding copy_output capped_write
copy_output-all_of buf [] h = rw (append-nil buf) refl
copy_output-all_of buf (p ∷ ps) h = elim (Bool-cases (ltb max_passphrase (length buf + length p))) [
  | inl y ↦ ground (arith, y)
  | inr n ↦ ground (arith, n, append_assoc buf p (all_of ps), copy_output-all_of (buf ++ p) ps)
]

IsPassphrase-line :
    (b p : Bytes)
    → p ≡ first_line b
    → (length p == 0) ≡ false
    → length p ≤ max_passphrase
    → IsPassphrase p
IsPassphrase-line b p e n h = record {
  one_line = rw e (contains-first_line b);
  some_byte = ground (arith, n);
  bounded = h;
}

-- What is left to do once the output is there.
asked_ok :
    (buf : Bytes) (copied : Bool) (ending : Ending) (p : Bytes)
    → elim (run_error ending copied) [
      | exit_error ↦ err gave_up
      | other_error ↦ err (abort not_started)
      | fine ↦ if length (first_line buf) == 0 then err no_output else ok (first_line buf)
    ]
      ≡ ok p
    → (ending ≡ succeeded) × (copied ≡ true) × (p ≡ first_line buf) × ((length p == 0) ≡ false)
unfolding run_error
asked_ok buf copied ending p e = ground (arith, e)

run_askpass-ok :
    (h : Helper) (p : Bytes)
    → run_askpass h ≡ ok p
    → (h.ending ≡ succeeded)
      × ((copy_output [] h.output).1 ≡ true)
      × (p ≡ first_line (copy_output [] h.output).0)
      × ((length p == 0) ≡ false)
unfolding run_askpass run_error
run_askpass-ok h p e = asked_ok (copy_output [] h.output).0 (copy_output [] h.output).1 h.ending p e

-- What SCHAIN_ASKPASS answers with: the helper ended with success, and the passphrase is the first
-- line of all of its output, is one line, is not empty and holds at most 4096 bytes.
pub run_askpass-IsPassphrase :
    (h : Helper) (p : Bytes)
    → run_askpass h ≡ ok p
    → (h.ending ≡ succeeded) × (p ≡ first_line (all_of h.output)) × IsPassphrase p
run_askpass-IsPassphrase h p e =
    let (ended, copied, line, some_byte) = run_askpass-ok h p e in
    let buf = (copy_output [] h.output).0 in
    let b : length buf ≤ max_passphrase = length-copy_output [] h.output (omega arith) in
    let len : length p ≤ max_passphrase = rw line (omega (arith, b, length-first_line buf)) in
    (
      ended,
      line ∙ ap first_line (copy_output-all_of [] h.output copied),
      IsPassphrase-line buf p line some_byte len,
    )

file_problem-none :
    (f : PassFile) → file_problem f ≡ none → (f.is_regular ≡ true) × (f.perm % 64 ≡ 0)
unfolding file_problem
file_problem-none f e = ground (arith, e)

check_line-ok :
    (q p : Bytes)
    → check_line q ≡ ok p
    → (p ≡ q) × ((length p == 0) ≡ false) × (length p ≤ max_passphrase)
unfolding check_line
check_line-ok q p e = ground (arith, e)

read_passphrase_file-ok :
    (f : PassFile) (p : Bytes)
    → read_passphrase_file f ≡ ok p
    → (file_problem f ≡ none)
      × (check_line (first_line (take (max_passphrase + 2) f.content)) ≡ ok p)
unfolding read_passphrase_file
read_passphrase_file-ok f p e = elim (Option-cases (file_problem f)) [
  | inl n ↦ (n, rw (read_passphrase_file, n) at e)
  | inr (x, n) ↦ cc (rw (read_passphrase_file, n) at e)
]

-- What SCHAIN_PASSPHRASE_FILE answers with: the file is regular and closed to group and others, and
-- the passphrase is the first line of the whole file, is one line, is not empty and holds at most
-- 4096 bytes; a longer line is never cut to a passphrase.
pub read_passphrase_file-IsPassphrase :
    (f : PassFile) (p : Bytes)
    → read_passphrase_file f ≡ ok p
    → (f.is_regular ≡ true) × (f.perm % 64 ≡ 0) × (p ≡ first_line f.content) × IsPassphrase p
read_passphrase_file-IsPassphrase f p e =
    let (sound, checked) = read_passphrase_file-ok f p e in
    let (regular, closed) = file_problem-none f sound in
    let (line, some_byte, len) =
      check_line-ok (first_line (take (max_passphrase + 2) f.content)) p checked in
    let n : length (first_line (take (max_passphrase + 2) f.content)) + 2 ≤ max_passphrase + 2 =
      rw (← line) (omega arith) in
    (
      regular,
      closed,
      line ∙ first_line-take (max_passphrase + 2) f.content n,
      IsPassphrase-line (take (max_passphrase + 2) f.content) p line some_byte len,
    )

check_line_abort : (q : Bytes) (e : Fail) → check_line q ≡ err e → is_abort e ≡ true
unfolding check_line is_abort
check_line_abort q e h = ground (arith, h)

-- A failure of the file is one of the setup.
pub is_abort-read_passphrase_file :
    (f : PassFile) (e : Fail) → read_passphrase_file f ≡ err e → is_abort e ≡ true
unfolding read_passphrase_file is_abort
is_abort-read_passphrase_file f e h = elim (Option-cases (file_problem f)) [
  | inl n ↦
      check_line_abort (first_line (take (max_passphrase + 2) f.content)) e
        (rw (read_passphrase_file, n) at h)
  | inr (x, n) ↦ ground (arith, rw (read_passphrase_file, n) at h)
]
