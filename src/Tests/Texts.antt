-- ===== src/Tests/Texts.antt =====
-- Values and their references (expand.go).
use schain.Prelude.{◌≡◌, ◌≢◌, ◌↔◌, refl, [], ◌∷◌, All, length, if◌then◌else◌}
use native.Mathlib.Nat.{le_refl}
use schain.Prelude.Text.{Bytes, codes, str_eq, cut_byte, member}
use schain.Fail.{ok, err, not_set, no_expand}
use schain.Expand.{expand_value, expand_refs, check_expand, expand_one, is_known}
use schain.Expand.Segments.{segments, Parses, Parses-segments}
use schain.Expand.Values.{expansion_of, expand_value-eq-expansion_of}
use schain.Expand.Vetting.{names, IsKnown, check_expand_iff}

abbrev getenv : Bytes → Bytes
getenv k = if str_eq k (codes "HOME") then codes "/h" else []

abbrev path_value : Bytes
path_value = codes "a${HOME}:${2y}${SCHAIN_DIR}$"

abbrev path_read : Parses path_value (segments (length path_value) path_value)
path_read = Parses-segments (length path_value) path_value (le_refl _)

expand_path : expand_value getenv path_value (codes "/d") ≡ ok (codes "a/h:${2y}/d$")
unfolding expand_value expand_one str_eq cut_byte
expand_path = refl

expand_unset : expand_value getenv (codes "${USER}") (codes "/d") ≡ err (not_set (codes "USER"))
unfolding expand_value expand_one str_eq cut_byte
expand_unset = refl

refs_of_path : expand_refs getenv path_value ≡ codes "${HOME}" ∷ codes "${SCHAIN_DIR}" ∷ []
unfolding expand_refs is_known expand_one str_eq cut_byte member
refs_of_path = refl

unknown_name :
    check_expand getenv (codes "K") (codes "${2y}")
    ≡ err (no_expand (codes "K") (codes "${2y}" ∷ []))
unfolding check_expand is_known expand_one str_eq cut_byte
unknown_name = refl

expand_value-eq-expansion_of_example :
    expand_value getenv path_value (codes "/d")
    ≡ expansion_of getenv (codes "/d") (segments (length path_value) path_value)
expand_value-eq-expansion_of_example =
    expand_value-eq-expansion_of getenv path_value (codes "/d") path_read

check_expand_iff_example : (check_expand getenv (codes "K") path_value ≡ ok tt) ↔ (
    All (IsKnown getenv) (names (segments (length path_value) path_value))
    × (names (segments (length path_value) path_value) ≢ []))
check_expand_iff_example = check_expand_iff getenv (codes "K") path_value path_read

bcrypt : expand_refs getenv (codes "$2y$05${2y}") ≡ []
unfolding expand_refs is_known expand_one str_eq cut_byte member
bcrypt = refl
