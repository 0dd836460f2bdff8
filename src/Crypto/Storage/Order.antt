-- ===== src/Crypto/Storage/Order.antt =====
-- Writing in key order loses no entry.
use leave_cli.Prelude.{
  ◌≡◌, refl, ◌∙◌, none, some, [], ◌∷◌, arith, if◌then◌else◌, All, length, suc, ap,
}
use leave_cli.Prelude.Text.{text_eq, text_eq_iff}
use leave_cli.Prelude.Maps.{Assoc, lookup}
use leave_cli.Crypto.Error.{Bytes}
use leave_cli.Crypto.Storage.{insert_sorted, sort_entries}

-- Each key stands once, as in a map.
abbrev pub HasKeysOnce : Assoc Bytes → Type 0
HasKeysOnce [] = Unit
HasKeysOnce ((k, v) ∷ m) = (lookup k m ≡ none) × HasKeysOnce m

module _ (k : Bytes) (v : Bytes) where
  lookup-insert_sorted :
      (m : Assoc Bytes) (j : Bytes)
      → lookup k m ≡ none
      → lookup j (insert_sorted (k, v) m) ≡ (if text_eq k j then some v else lookup j m)
  unfolding lookup insert_sorted
  lookup-insert_sorted [] j h = refl
  lookup-insert_sorted ((i, w) ∷ m) j h =
      ground (arith, lookup-insert_sorted m j, text_eq_iff i k, text_eq_iff i j, text_eq_iff k j)

  insert_sorted-HasKeysOnce :
      (m : Assoc Bytes) → lookup k m ≡ none → HasKeysOnce m → HasKeysOnce (insert_sorted (k, v) m)
  unfolding lookup insert_sorted
  insert_sorted-HasKeysOnce [] h once = (refl, tt)
  insert_sorted-HasKeysOnce ((i, w) ∷ m) h once = ground (
    arith,
    insert_sorted-HasKeysOnce m,
    lookup-insert_sorted m i,
    text_eq_iff i k,
    text_eq_iff k i,
  )

  length-insert_sorted : (m : Assoc Bytes) → length (insert_sorted (k, v) m) ≡ suc (length m)
  unfolding insert_sorted
  length-insert_sorted [] = refl
  length-insert_sorted ((i, w) ∷ m) = ground (arith, length-insert_sorted m)

  All-insert_sorted :
      (P : Bytes × Bytes → Type 0) (m : Assoc Bytes)
      → P (k, v)
      → All P m
      → All P (insert_sorted (k, v) m)
  unfolding insert_sorted
  All-insert_sorted P [] p h = (p, tt)
  All-insert_sorted P ((i, w) ∷ m) p (q, h) = ground (arith, All-insert_sorted P m p h)

pub lookup-sort_entries :
    (m : Assoc Bytes) (j : Bytes)
    → HasKeysOnce m
    → (lookup j (sort_entries m) ≡ lookup j m) × HasKeysOnce (sort_entries m)
unfolding sort_entries lookup
lookup-sort_entries [] j h = (refl, tt)
lookup-sort_entries ((k, v) ∷ m) j (absent, once) =
    let (same, sorted) = lookup-sort_entries m j once in
    let (none_left, _) = lookup-sort_entries m k once in
    let gone : lookup k (sort_entries m) ≡ none = none_left ∙ absent in
    (
      lookup-insert_sorted k v (sort_entries m) j gone ∙ ground (arith, same),
      insert_sorted-HasKeysOnce k v (sort_entries m) gone sorted,
    )

pub length-sort_entries : (m : Assoc Bytes) → length (sort_entries m) ≡ length m
unfolding sort_entries
length-sort_entries [] = refl
length-sort_entries ((k, v) ∷ m) =
    length-insert_sorted k v (sort_entries m) ∙ ap suc (length-sort_entries m)

pub All-sort_entries :
    (P : Bytes × Bytes → Type 0) (m : Assoc Bytes) → All P m → All P (sort_entries m)
unfolding sort_entries
All-sort_entries P [] h = tt
All-sort_entries P ((k, v) ∷ m) (p, h) =
    All-insert_sorted k v P (sort_entries m) p (All-sort_entries P m h)
