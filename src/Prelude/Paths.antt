-- ===== src/Prelude/Paths.antt =====
-- The package path/filepath on Unix, on texts alone: Clean, Join, Dir, Base, IsAbs; and strings.TrimSpace.
use Prim.Native.Nat.{ℕ, zero, suc}
use mathlib.Core.Bool.{Bool, true, false, ◌&&◌, ◌||◌, not}
use mathlib.Core.List.{List, [], ◌∷◌, ◌++◌, map}
use mathlib.Core.Option.{Option, none, some}
use schain.Prelude.Tests.{if◌then◌else◌}
use schain.Prelude.Lists.{length, drop}
use schain.Prelude.Text.{Bytes, codes, str_eq, has_prefix}
use schain.Prelude.Split.{split, join}

abbrev pub slash : ℕ
slash = b'/'

abbrev pub dot : Bytes
dot = codes "."

abbrev pub dot_dot : Bytes
dot_dot = codes ".."

unfoldable pub backwards {ℓ} : {A : Type ℓ} → List A → List A
backwards [] = []
backwards (x ∷ xs) = backwards xs ++ x ∷ []

unfoldable pub is_abs : Bytes → Bool
unfolding has_prefix
is_abs p = has_prefix p (slash ∷ [])

-- `..` takes the last part away; at the root there is none to take, and a relative path keeps it.
unfoldable pub climb : Bool → List Bytes → List Bytes
climb true [] = []
climb false [] = dot_dot ∷ []
climb rooted (p ∷ ps) = if str_eq p dot_dot then dot_dot ∷ p ∷ ps else ps

-- The parts so far, the last one first.
unfoldable pub clean_parts : Bool → List Bytes → List Bytes → List Bytes
unfolding climb
clean_parts rooted done [] = done
clean_parts rooted done (p ∷ ps) =
    if str_eq p [] || str_eq p dot
    then clean_parts rooted done ps
    else if str_eq p dot_dot
    then clean_parts rooted (climb rooted done) ps
    else clean_parts rooted (p ∷ done) ps

unfoldable pub or_dot : Bytes → Bytes
or_dot [] = dot
or_dot (c ∷ s) = c ∷ s

-- filepath.Clean
unfoldable pub clean : Bytes → Bytes
unfolding or_dot is_abs clean_parts split join backwards
clean p = or_dot (
    (if is_abs p then slash ∷ [] else [])
    ++ join slash (backwards (clean_parts (is_abs p) [] (split slash p))))

-- filepath.Join of two elements; empty ones are left out.
unfoldable pub join_path : Bytes → Bytes → Bytes
unfolding clean
join_path [] [] = []
join_path [] (c ∷ b) = clean (c ∷ b)
join_path (c ∷ a) b = clean ((c ∷ a) ++ slash ∷ b)

-- The text up to the last slash, with it.
unfoldable pub up_to_slash : List Bytes → Bytes
up_to_slash [] = []
up_to_slash (p ∷ []) = []
up_to_slash (p ∷ q ∷ ps) = p ++ slash ∷ up_to_slash (q ∷ ps)

-- filepath.Dir
unfoldable pub dir_of : Bytes → Bytes
unfolding up_to_slash clean split
dir_of p = clean (up_to_slash (split slash p))

unfoldable pub last_part : Bytes → List Bytes → Bytes
last_part d [] = d
last_part d (p ∷ ps) = if str_eq p [] then last_part d ps else last_part p ps

-- filepath.Base: the last part that is not empty.
unfoldable pub base_of : Bytes → Bytes
unfolding last_part split
base_of [] = dot
base_of (c ∷ s) = last_part (slash ∷ []) (split slash (c ∷ s))

-- unicode.IsSpace, each code point as its bytes in UTF-8.
abbrev pub spaces : List Bytes
spaces =
    (9 ∷ [])
    ∷ (10 ∷ [])
    ∷ (11 ∷ [])
    ∷ (12 ∷ [])
    ∷ (13 ∷ [])
    ∷ (32 ∷ [])
    ∷ (194 ∷ 133 ∷ [])
    ∷ (194 ∷ 160 ∷ [])
    ∷ (225 ∷ 154 ∷ 128 ∷ [])
    ∷ (226 ∷ 128 ∷ 128 ∷ [])
    ∷ (226 ∷ 128 ∷ 129 ∷ [])
    ∷ (226 ∷ 128 ∷ 130 ∷ [])
    ∷ (226 ∷ 128 ∷ 131 ∷ [])
    ∷ (226 ∷ 128 ∷ 132 ∷ [])
    ∷ (226 ∷ 128 ∷ 133 ∷ [])
    ∷ (226 ∷ 128 ∷ 134 ∷ [])
    ∷ (226 ∷ 128 ∷ 135 ∷ [])
    ∷ (226 ∷ 128 ∷ 136 ∷ [])
    ∷ (226 ∷ 128 ∷ 137 ∷ [])
    ∷ (226 ∷ 128 ∷ 138 ∷ [])
    ∷ (226 ∷ 128 ∷ 168 ∷ [])
    ∷ (226 ∷ 128 ∷ 169 ∷ [])
    ∷ (226 ∷ 128 ∷ 175 ∷ [])
    ∷ (226 ∷ 129 ∷ 159 ∷ [])
    ∷ (227 ∷ 128 ∷ 128 ∷ [])
    ∷ []

unfoldable pub space_in_front : List Bytes → Bytes → Option ℕ
space_in_front [] s = none
space_in_front (w ∷ ws) s = if has_prefix s w then some (length w) else space_in_front ws s

-- The length of the text is enough fuel, since a space has a byte at least.
unfoldable pub strip : ℕ → List Bytes → Bytes → Bytes
unfolding space_in_front
strip zero ws s = s
strip (suc n) ws s = elim (space_in_front ws s) [ none ↦ s | some k ↦ strip n ws (drop k s) ]

-- strings.TrimSpace
unfoldable pub trim_space : Bytes → Bytes
unfolding strip backwards
trim_space s =
    let front = strip (length s) spaces s in
    backwards (strip (length front) (map backwards spaces) (backwards front))

-- filepath.Join of three elements that are not empty
unfoldable pub join_path3 : Bytes → Bytes → Bytes → Bytes
unfolding clean
join_path3 a b c = clean (a ++ slash ∷ b ++ slash ∷ c)

-- The elements of a path that Clean has gone over; the root has an empty one only.
unfoldable pub elements : Bytes → List Bytes
unfolding split
elements p = if str_eq p dot then [] else if str_eq p (slash ∷ []) then [] ∷ [] else split slash p

unfoldable pub climbs : List Bytes → List Bytes
climbs [] = []
climbs (b ∷ bs) = dot_dot ∷ climbs bs

-- Past the elements that both have: up for each one left of the base, then down. A base that goes up
-- itself has no answer there.
unfoldable pub rel_elements : List Bytes → List Bytes → Option (List Bytes)
unfolding climbs
rel_elements [] ts = some ts
rel_elements (b ∷ bs) [] = some (climbs (b ∷ bs))
rel_elements (b ∷ bs) (t ∷ ts) = elim (str_eq b t) [
  | true ↦ rel_elements bs ts
  | false ↦ if str_eq b dot_dot then none else some (climbs (b ∷ bs) ++ t ∷ ts)
]

-- filepath.Rel
unfoldable pub rel_path : Bytes → Bytes → Option Bytes
unfolding clean elements rel_elements join is_abs
rel_path base target =
    let b = clean base in
    let t = clean target in
    if str_eq b t
    then some dot
    else if is_abs b && not (is_abs t)
    then none
    else if not (is_abs b) && is_abs t
    then none
    else elim (rel_elements (elements b) (elements t)) [
      | none ↦ none
      | some es ↦ some (join slash es)
    ]
