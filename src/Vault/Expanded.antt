-- ===== src/Vault/Expanded.antt =====
-- The list of expanded keys: what `setExpand` does to `expands`.
use schain.Prelude.{
  ◌≡◌, ◌≢◌, refl, ap, ◌∙◌, Bool, true, false, none, some, List, [], ◌∷◌, ◌++◌, arith, if◌then◌else◌,
  All, All-append,
}
use schain.Prelude.Text.{Bytes, str_eq, str_eq_iff, str_eq_refl, member, member-append}
use schain.Prelude.Split.{split, join, split-join, split-All-Lacks, Lacks}
use schain.Prelude.Dict.{Dict, lookup, insert, delete, lookup-insert, lookup-delete}
use schain.Prelude.Sort.{
  sort_strings, sort_by, member-sort_by, All-sort_by, str_lt, insert_by-ne-nil,
}
use schain.Vault.{Vault, expand_key, text_at, comma, expands, other_names, store_expand, set_expand}

str_eq-nil : (j : Bytes) → j ≢ [] → str_eq [] j ≡ false
unfolding str_eq
str_eq-nil [] h = absurd (h refl)
str_eq-nil (c ∷ j) h = refl

member-other_names :
    (k j : Bytes) (ns : List Bytes)
    → j ≢ []
    → member j (other_names k ns) ≡ (if str_eq k j then false else member j ns)
unfolding other_names member
member-other_names k j [] h = ground arith
member-other_names k j (n ∷ ns) h = ground (
  arith,
  member-other_names k j ns h,
  str_eq_iff n k,
  str_eq_iff n j,
  str_eq_iff k j,
  str_eq_iff n [],
  str_eq-nil j h,
)

All-other_names :
    (k : Bytes) (ns : List Bytes) → All (Lacks comma) ns → All (Lacks comma) (other_names k ns)
unfolding other_names
All-other_names k [] h = tt
All-other_names k (n ∷ ns) h = ground (arith, All-other_names k ns h.1)

member-split-join :
    (j n : Bytes) (ns : List Bytes)
    → All (Lacks comma) (n ∷ ns)
    → member j (split comma (join comma (sort_strings (n ∷ ns)))) ≡ member j (n ∷ ns)
member-split-join j n ns h =
    rw
      (split-join comma (sort_strings (n ∷ ns))
        (λ e. insert_by-ne-nil str_lt n (sort_strings ns) (unfold sort_by in e))
        (All-sort_by str_lt (Lacks comma) (n ∷ ns) h))
      (member-sort_by j (n ∷ ns))

text_at-none : (k : Bytes) (m : Dict Bytes) → lookup k m ≡ none → text_at k m ≡ []
text_at-none k m e = ground (arith, e)

text_at-some : (k : Bytes) (m : Dict Bytes) (s : Bytes) → lookup k m ≡ some s → text_at k m ≡ s
text_at-some k m s e = ground (arith, e)

member-store_expand :
    (j : Bytes) (ns : List Bytes) (m : Dict Bytes)
    → j ≢ []
    → All (Lacks comma) ns
    → member j (split comma (text_at expand_key (store_expand ns m))) ≡ member j ns
unfolding store_expand
member-store_expand j [] m h a =
    ap (λ t. member j (split comma t)) (text_at-none expand_key (delete expand_key m) gone)
    ∙ unfold split member in ground (arith, str_eq-nil j h)
  where
    gone : lookup expand_key (delete expand_key m) ≡ none
    gone = lookup-delete expand_key expand_key m ∙ rw (str_eq_refl expand_key)
member-store_expand j (n ∷ ns) m h a =
    let s = join comma (sort_strings (n ∷ ns)) in
    ap (λ t. member j (split comma t)) (text_at-some expand_key (insert expand_key s m) s (there s))
    ∙ member-split-join j n ns a
  where
    there : (s : Bytes) → lookup expand_key (insert expand_key s m) ≡ some s
    there s = lookup-insert expand_key expand_key s m ∙ rw (str_eq_refl expand_key)

lookup-store_expand :
    (j : Bytes) (ns : List Bytes) (m : Dict Bytes)
    → str_eq expand_key j ≡ false
    → lookup j (store_expand ns m) ≡ lookup j m
unfolding store_expand
lookup-store_expand j [] m h = lookup-delete expand_key j m ∙ rw h
lookup-store_expand j (n ∷ ns) m h =
    lookup-insert expand_key j (join comma (sort_strings (n ∷ ns))) m ∙ rw h

-- setExpand changes no secret but the reserved list.
pub lookup-set_expand :
    (k j : Bytes) (on : Bool) (v : Vault)
    → str_eq expand_key j ≡ false
    → lookup j (set_expand k on v).secrets ≡ lookup j v.secrets
unfolding set_expand
lookup-set_expand k j on v h = lookup-store_expand j _ v.secrets h

-- Turning a key off makes no list where there is none.
pub lookup-set_expand-absent :
    (k : Bytes) (v : Vault)
    → lookup expand_key v.secrets ≡ none
    → lookup expand_key (set_expand k false v).secrets ≡ none
unfolding set_expand
lookup-set_expand-absent k v h =
    ap (λ t. lookup expand_key (store_expand (other_names k (split comma t)) v.secrets))
      (text_at-none expand_key v.secrets h)
    ∙ unfold split other_names str_eq store_expand in gone
  where
    gone : lookup expand_key (delete expand_key v.secrets) ≡ none
    gone = lookup-delete expand_key expand_key v.secrets ∙ rw (str_eq_refl expand_key)

-- After setExpand the key is expanded exactly if it was asked for, and every other named key is
-- expanded exactly if it was before. A key that is turned on must hold no comma.
pub expands-set_expand :
    (k j : Bytes) (on : Bool) (v : Vault)
    → j ≢ []
    → (on ≡ true → Lacks comma k)
    → expands (set_expand k on v) j ≡ (if str_eq k j then on else expands v j)
unfolding expands set_expand
expands-set_expand k j true v h c =
    let old = split comma (text_at expand_key v.secrets) in
    let names = other_names k old in
    member-store_expand j (names ++ k ∷ []) v.secrets h (
      All-append (Lacks comma) names (k ∷ []) (All-other_names k old (split-All-Lacks comma _))
        (c refl, tt))
    ∙ member-append j names (k ∷ [])
    ∙ unfold member in ground (arith, member-other_names k j old h)
expands-set_expand k j false v h c =
    let old = split comma (text_at expand_key v.secrets) in
    member-store_expand j (other_names k old) v.secrets h
      (All-other_names k old (split-All-Lacks comma _))
    ∙ member-other_names k j old h
