-- ===== src/Prelude/Absolute.antt =====
-- The absolute paths that name their directories one by one, and what Clean, Dir and Join make of them.
use Prim.Native.Nat.{◌<◌}
use mathlib.Core.Path.{◌≡◌, refl, sym, ap, ◌∙◌}
use mathlib.Core.Logic.{◌≢◌}
use mathlib.Core.Bool.{true, false}
use mathlib.Core.List.{List, [], ◌∷◌, ◌++◌, append-nil, append_assoc}
use native.Mathlib.Omega.{arith}
use schain.Prelude.Lists.{length, All, All-append, length-append}
use schain.Prelude.Text.{Bytes, str_eq, has_prefix}
use schain.Prelude.Split.{split, join, Lacks, split-Lacks, split-append, split-join}
use schain.Prelude.Paths.{
  slash, dot, dot_dot, backwards, is_abs, clean_parts, or_dot, clean, join_path, up_to_slash,
  dir_of,
}

-- The name of a file in its directory.
pub record IsName (p : Bytes) : Type 0 where
  pub lacks_slash : Lacks slash p
  pub some_byte : str_eq p [] ≡ false
  pub no_dot : str_eq p dot ≡ false
  pub no_dot_dot : str_eq p dot_dot ≡ false

abbrev pub Names : List Bytes → Type 0
Names = All IsName

-- The directory that the names lead to from the root.
unfoldable pub abs_path : List Bytes → Bytes
unfolding join
abs_path names = slash ∷ join slash names

pub Names-Lacks : (ns : List Bytes) → Names ns → All (Lacks slash) ns
Names-Lacks [] h = tt
Names-Lacks (n ∷ ns) (h, hs) = (h.lacks_slash, Names-Lacks ns hs)

-- Names are kept, one after the other; an empty part changes nothing.
clean_parts-Names :
    (ns rest done : List Bytes)
    → Names ns
    → clean_parts true done (ns ++ rest) ≡ clean_parts true (backwards ns ++ done) rest
unfolding clean_parts backwards
clean_parts-Names [] rest done h = refl
clean_parts-Names (n ∷ ns) rest done (h, hs) =
    rw (h.some_byte, h.no_dot, h.no_dot_dot)
      (rw (append_assoc (backwards ns) (n ∷ []) done) (clean_parts-Names ns rest (n ∷ done) hs))

clean_parts_empty :
    (done rest : List Bytes) → clean_parts true done ([] ∷ rest) ≡ clean_parts true done rest
unfolding clean_parts str_eq
clean_parts_empty done rest = refl

backwards-append {ℓ} :
    {A : Type ℓ} (xs ys : List A) → backwards (xs ++ ys) ≡ backwards ys ++ backwards xs
unfolding backwards
backwards-append [] ys = sym (append-nil (backwards ys))
backwards-append (x ∷ xs) ys =
    rw (backwards-append xs ys) (append_assoc (backwards ys) (backwards xs) (x ∷ []))

pub backwards-backwards {ℓ} : {A : Type ℓ} (xs : List A) → backwards (backwards xs) ≡ xs
unfolding backwards
backwards-backwards [] = refl
backwards-backwards (x ∷ xs) =
    rw (backwards-append (backwards xs) (x ∷ []), backwards-backwards xs) refl

-- Clean of a path with a slash in front, by its parts.
clean_rooted :
    (s : Bytes) (parts : List Bytes)
    → clean_parts true [] (split slash (slash ∷ s)) ≡ backwards parts
    → clean (slash ∷ s) ≡ abs_path parts
unfolding clean is_abs has_prefix or_dot abs_path
clean_rooted s parts e = rw (e, backwards-backwards parts) refl

split-slash : (s : Bytes) → split slash (slash ∷ s) ≡ [] ∷ split slash s
unfolding split
split-slash s = refl

-- Names with a slash behind each.
slashed : List Bytes → Bytes
slashed [] = []
slashed (n ∷ ns) = n ++ slash ∷ slashed ns

split-slashed :
    (ns : List Bytes) (rest : Bytes)
    → Names ns
    → split slash (slashed ns ++ rest) ≡ ns ++ split slash rest
unfolding slashed
split-slashed [] rest h = refl
split-slashed (n ∷ ns) rest (h, hs) = rw (append_assoc n (slash ∷ slashed ns) rest) (
    split-append slash n (slashed ns ++ rest) h.lacks_slash
    ∙ ap (λ l. n ∷ l) (split-slashed ns rest hs))

clean_parts_all : (ns : List Bytes) → Names ns → clean_parts true [] ns ≡ backwards ns
unfolding clean_parts
clean_parts_all ns h =
    ap (λ l. clean_parts true [] l) (sym (append-nil ns))
    ∙ clean_parts-Names ns [] [] h
    ∙ append-nil (backwards ns)

clean-slashed : (ns : List Bytes) → Names ns → clean (slash ∷ slashed ns) ≡ abs_path ns
clean-slashed ns h = clean_rooted (slashed ns) ns (
    ap (λ l. clean_parts true [] l)
      (split-slash (slashed ns)
        ∙ ap (λ l. [] ∷ l)
            (ap (split slash) (sym (append-nil (slashed ns))) ∙ split-slashed ns [] h))
    ∙ clean_parts_empty [] (ns ++ split slash [])
    ∙ clean_parts-Names ns (split slash []) [] h
    ∙ last_empty (backwards ns))
  where
    last_empty : (done : List Bytes) → clean_parts true (done ++ []) (split slash []) ≡ done
    last_empty done = unfold clean_parts split str_eq in append-nil done

up_to_slash-append :
    (m n : Bytes) (ns : List Bytes) → up_to_slash (m ∷ (ns ++ n ∷ [])) ≡ m ++ slash ∷ slashed ns
unfolding up_to_slash slashed
up_to_slash-append m n [] = refl
up_to_slash-append m n (x ∷ ns) = rw (up_to_slash-append x n ns) refl

append-ne-nil : (ns : List Bytes) (n : Bytes) → (ns ++ n ∷ []) ≢ []
append-ne-nil [] n e = cc
append-ne-nil (x ∷ ns) n e = cc

split-abs_path : (ns : List Bytes) → ns ≢ [] → Names ns → split slash (abs_path ns) ≡ [] ∷ ns
unfolding abs_path
split-abs_path ns e h =
    split-slash (join slash ns) ∙ ap (λ l. [] ∷ l) (split-join slash ns e (Names-Lacks ns h))

-- Dir of a path given by names takes the last name away.
pub dir_of-abs_path :
    (ns : List Bytes) (n : Bytes)
    → Names (ns ++ n ∷ [])
    → Names ns
    → dir_of (abs_path (ns ++ n ∷ [])) ≡ abs_path ns
unfolding dir_of
dir_of-abs_path ns n h k =
    rw (split-abs_path (ns ++ n ∷ []) (append-ne-nil ns n) h)
      (rw (up_to_slash-append [] n ns) (clean-slashed ns k))

-- The root is its own directory.
pub dir_of-root : dir_of (abs_path []) ≡ abs_path []
unfolding dir_of abs_path split up_to_slash clean is_abs clean_parts or_dot join str_eq
dir_of-root = refl

split-join-append :
    (n : Bytes) (ns : List Bytes) (s : Bytes)
    → Names (n ∷ ns)
    → split slash (join slash (n ∷ ns) ++ slash ∷ s) ≡ (n ∷ ns) ++ split slash s
unfolding join
split-join-append n [] s (h, hs) = split-append slash n s h.lacks_slash
split-join-append n (m ∷ ns) s (h, hs) =
    rw (append_assoc n (slash ∷ join slash (m ∷ ns)) (slash ∷ s)) (
      split-append slash n (join slash (m ∷ ns) ++ slash ∷ s) h.lacks_slash
      ∙ ap (λ l. n ∷ l) (split-join-append m ns s hs))

-- Join puts a name behind the others.
pub join_path-abs_path :
    (ns : List Bytes) (n : Bytes)
    → Names ns
    → IsName n
    → join_path (abs_path ns) n ≡ abs_path (ns ++ n ∷ [])
unfolding join_path abs_path
join_path-abs_path [] n k h = clean_rooted (slash ∷ n) (n ∷ []) (
    ap (λ l. clean_parts true [] l)
      (split-slash (slash ∷ n)
        ∙ ap (λ l. [] ∷ l) (split-slash n ∙ ap (λ l. [] ∷ l) (split-Lacks slash n h.lacks_slash)))
    ∙ clean_parts_empty [] ([] ∷ n ∷ [])
    ∙ clean_parts_empty [] (n ∷ [])
    ∙ clean_parts_all (n ∷ []) (h, tt))
join_path-abs_path (m ∷ ns) n k h =
    clean_rooted (join slash (m ∷ ns) ++ slash ∷ n) ((m ∷ ns) ++ n ∷ []) (
      ap (λ l. clean_parts true [] l)
        (split-slash (join slash (m ∷ ns) ++ slash ∷ n)
          ∙ ap (λ l. [] ∷ l)
              (split-join-append m ns n k
                ∙ ap (λ l. (m ∷ ns) ++ l) (split-Lacks slash n h.lacks_slash)))
      ∙ clean_parts_empty [] ((m ∷ ns) ++ n ∷ [])
      ∙ clean_parts_all ((m ∷ ns) ++ n ∷ []) (All-append IsName (m ∷ ns) (n ∷ []) k (h, tt)))

length-join-append :
    (n : Bytes) (ns : List Bytes)
    → str_eq n [] ≡ false
    → length (join slash ns) < length (join slash (ns ++ n ∷ []))
unfolding join str_eq
length-join-append [] [] e = cc
length-join-append (c ∷ n) [] e = omega arith
length-join-append n (m ∷ []) e = omega (arith, length-append m (slash ∷ n))
length-join-append n (m ∷ p ∷ ns) e = omega (
  arith,
  length-join-append n (p ∷ ns) e,
  length-append m (slash ∷ join slash (p ∷ ns)),
  length-append m (slash ∷ join slash ((p ∷ ns) ++ n ∷ [])),
)

pub length-abs_path-append :
    (n : Bytes) (ns : List Bytes)
    → IsName n
    → length (abs_path ns) < length (abs_path (ns ++ n ∷ []))
unfolding abs_path
length-abs_path-append n ns h = omega (arith, length-join-append n ns h.some_byte)
