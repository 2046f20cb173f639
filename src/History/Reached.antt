-- ===== src/History/Reached.antt =====
-- history.go and vault.go: the vaults that edits and the history commands lead to, and that their
-- history can always be shown.
use schain.Prelude.{
  ℕ, zero, suc, ◌≡◌, ◌≢◌, refl, ap, ◌∙◌, Bool, true, false, not, some, inl, inr, List, [], ◌∷◌, map,
  arith, ◌==◌, Bool-cases, Option-cases, length,
}
use schain.Prelude.Text.{Bytes, str_eq, str_eq_refl, member}
use schain.Prelude.Dict.{
  Dict, lookup, insert, delete, keys_of, has_key, lookup-insert, lookup-delete, member-keys_of,
}
use schain.Prelude.Sort.{sort_by, insert_by}
use schain.Fail.{ok}
use schain.Vault.{
  Vault, Revision, Mark, revisions, reserved, keep, current, push, log, put, drop, set_expand,
  holds,
}
use schain.Vault.Edits.{history-put, history-drop, push_first}
use schain.History.{trim, switch_to, purge_keys}
use schain.History.Shown.{Entry, entry_of, entries_of, before, history_table}

-- No key has a history without a revision.
abbrev pub NoEmpty : Dict (List Revision) → Type 0
NoEmpty m = (j : Bytes) → lookup j m ≢ some []

-- One edit of an opened vault: by set and unset, by revert (which puts or drops), by the switches of
-- the history and by a purge.
pub data Edit : Vault → Vault → Type 0 where
  puts : {v : Vault} (mark : Mark) (k val : Bytes) → Edit v (put mark k val v)
  drops : {v : Vault} (mark : Mark) (k : Bytes) → Edit v (drop mark k v)
  expands : {v : Vault} (k : Bytes) (on : Bool) → Edit v (set_expand k on v)
  switches : {v : Vault} (n : ℕ) → Edit v (switch_to n v)
  purges_all : {v : Vault} → Edit v (record v { history = [] })
  purges :
      {v : Vault} (ks : List Bytes) (m : Dict (List Revision))
      → purge_keys ks v.history ≡ ok m
      → Edit v (record v { history = m })

pub data Edits (v : Vault) : Vault → Type 0 where
  here : Edits v v
  then_edit : {w u : Vault} → Edits v w → Edit w u → Edits v u

insert-NoEmpty :
    (k : Bytes) (h : List Revision) (m : Dict (List Revision))
    → h ≢ []
    → NoEmpty m
    → NoEmpty (insert k h m)
insert-NoEmpty k h m ne v j e = elim (Bool-cases (str_eq k j)) [
  | inl y ↦ ne (ground (arith, y, e, lookup-insert k j h m))
  | inr n ↦ v j (ground (arith, n, e, lookup-insert k j h m))
]

delete-NoEmpty : (k : Bytes) (m : Dict (List Revision)) → NoEmpty m → NoEmpty (delete k m)
delete-NoEmpty k m v j e = v j (ground (arith, e, lookup-delete k j m))

push-ne-nil : (n : ℕ) (r : Revision) (h : List Revision) → (n == 0) ≡ false → push n r h ≢ []
push-ne-nil n r h p e = let (t, q) = push_first n r h (ground (arith, p)) in cc (e, q)

log-NoEmpty :
    (mark : Mark) (k : Bytes) (v : Vault) → NoEmpty v.history → NoEmpty (log mark k v).history
unfolding log
log-NoEmpty mark k v h = elim (Bool-cases (keep v == 0)) [
  | inl y ↦ rw y h
  | inr n ↦ rw n (elim (Bool-cases (reserved k)) [
    | inl y ↦ rw y h
    | inr m ↦ rw m (
        insert-NoEmpty k (push (keep v) (current mark (lookup k v.secrets)) (revisions k v.history))
          v.history
          (push-ne-nil (keep v) (current mark (lookup k v.secrets)) (revisions k v.history) n) h)
  ])
]

put-NoEmpty :
    (mark : Mark) (k val : Bytes) (v : Vault)
    → NoEmpty v.history
    → NoEmpty (put mark k val v).history
put-NoEmpty mark k val v h =
    rw (history-put mark k val v) (elim (Bool-cases (holds k val v.secrets)) [
      | inl y ↦ rw y h
      | inr n ↦ rw n (log-NoEmpty mark k v h)
    ])

lookup-trim :
    (n : ℕ) (j : Bytes) (m : Dict (List Revision))
    → lookup j (trim n m) ≡ some []
    → lookup j m ≡ some []
unfolding trim lookup
lookup-trim n j [] e = e
lookup-trim n j ((k, []) ∷ m) e = ground (arith, e, lookup-trim n j m)
lookup-trim zero j ((k, r ∷ rs) ∷ m) e = ground (arith, e, lookup-trim zero j m)
lookup-trim (suc n) j ((k, r ∷ rs) ∷ m) e = ground (arith, e, lookup-trim (suc n) j m)

purge_keys-NoEmpty :
    (ks : List Bytes) (m out : Dict (List Revision))
    → NoEmpty m
    → purge_keys ks m ≡ ok out
    → NoEmpty out
unfolding purge_keys
purge_keys-NoEmpty [] m out v e = let q : m ≡ out = ground (arith, e) in rw (← q) v
purge_keys-NoEmpty (k ∷ ks) m out v e = elim (Bool-cases (has_key k m)) [
  | inl y ↦ purge_keys-NoEmpty ks (delete k m) out (delete-NoEmpty k m v) (rw (purge_keys, y) at e)
  | inr n ↦ λ j _. cc (rw (purge_keys, n) at e)
]

Edit-NoEmpty : {v w : Vault} → Edit v w → NoEmpty v.history → NoEmpty w.history
Edit-NoEmpty (puts {v} mark k val) h = put-NoEmpty mark k val v h
Edit-NoEmpty (drops {v} mark k) h = rw (history-drop mark k v) (log-NoEmpty mark k v h)
Edit-NoEmpty (expands {v} k on) h = unfold set_expand in h
Edit-NoEmpty (switches {v} n) h = unfold switch_to in λ j e. h j (lookup-trim n j v.history e)
Edit-NoEmpty purges_all h = λ j e. unfold lookup in cc e
Edit-NoEmpty (purges {v} ks m e) h = purge_keys-NoEmpty ks v.history m h e

Edits-NoEmpty : {v w : Vault} → Edits v w → NoEmpty v.history → NoEmpty w.history
Edits-NoEmpty here h = h
Edits-NoEmpty (then_edit r e) h = Edit-NoEmpty e (Edits-NoEmpty r h)

-- A key with a history has a line in the table.
entry_of-total :
    (v : Vault) (k : Bytes)
    → NoEmpty v.history
    → has_key k v.history ≡ true
    → (e : Entry) × (entry_of v k ≡ ok e) × (e.key ≡ k)
unfolding entry_of has_key
entry_of-total v k ne h = elim (Option-cases (lookup k v.history)) [
  | inl n ↦ cc (rw (has_key, n) at h)
  | inr ([], s) ↦ absurd (ne k s)
  | inr (r ∷ rs, s) ↦ (
    record {
      key = k;
      is_unset = not (has_key k v.secrets);
      kept = length (r ∷ rs);
      at = r.at;
      by = r.by;
    },
    rw (entry_of, s) refl,
    refl,
  )
]

abbrev HasHistory : Dict (List Revision) → List Bytes → Type 0
HasHistory m [] = Unit
HasHistory m (k ∷ ks) = (has_key k m ≡ true) × HasHistory m ks

HasHistory-cons :
    (k : Bytes) (h : List Revision) (m : Dict (List Revision)) (ks : List Bytes)
    → HasHistory m ks
    → HasHistory ((k, h) ∷ m) ks
unfolding has_key lookup
HasHistory-cons k h m [] p = tt
HasHistory-cons k h m (j ∷ ks) (p, ps) = (ground (arith, p), HasHistory-cons k h m ks ps)

HasHistory-keys_of : (m : Dict (List Revision)) → HasHistory m (keys_of m)
unfolding keys_of
HasHistory-keys_of [] = tt
HasHistory-keys_of ((k, h) ∷ m) =
    (first_key, HasHistory-cons k h m (keys_of m) (HasHistory-keys_of m))
  where
    first_key : has_key k ((k, h) ∷ m) ≡ true
    first_key = unfold has_key lookup in ground (arith, str_eq_refl k)

entries_of-total :
    (v : Vault) (ks : List Bytes)
    → NoEmpty v.history
    → HasHistory v.history ks
    → (es : List Entry) × (entries_of v ks ≡ ok es) × (map (λ e. e.key) es ≡ ks)
unfolding entries_of
entries_of-total v [] ne h = ([], refl, refl)
entries_of-total v (k ∷ ks) ne (h, hs) =
    let (e, q, s) = entry_of-total v k ne h in
    let (es, qs, ss) = entries_of-total v ks ne hs in (e ∷ es, rw (q, qs) refl, rw (s, ss) refl)

member-insert_by :
    (k : Bytes) (x : Entry) (es : List Entry)
    → member k (map (λ e. e.key) (insert_by before x es)) ≡ member k (map (λ e. e.key) (x ∷ es))
unfolding insert_by member
member-insert_by k x [] = refl
member-insert_by k x (y ∷ es) = ground (arith, member-insert_by k x es)

member-sort_by :
    (k : Bytes) (es : List Entry)
    → member k (map (λ e. e.key) (sort_by before es)) ≡ member k (map (λ e. e.key) es)
unfolding sort_by member
member-sort_by k [] = refl
member-sort_by k (e ∷ es) =
    ground (arith, member-insert_by k e (sort_by before es), member-sort_by k es)

-- Whatever edits and history commands a vault without history goes through, its history can be shown:
-- the table has a line for exactly the keys that have a history, and no index is out of range.
pub history_table-Edits :
    (v w : Vault) (k : Bytes)
    → v.history ≡ []
    → Edits v w
    → (es : List Entry) × (history_table w ≡ ok es)
      × (member k (map (λ e. e.key) es) ≡ has_key k w.history)
unfolding history_table
history_table-Edits v w k e r =
    let ne : NoEmpty w.history = Edits-NoEmpty r (rw e λ j p. unfold lookup in cc p) in
    let (es, q, s) = entries_of-total w (keys_of w.history) ne (HasHistory-keys_of w.history) in
    (
      sort_by before es,
      rw q refl,
      member-sort_by k es ∙ ap (member k) s ∙ member-keys_of k w.history,
    )
