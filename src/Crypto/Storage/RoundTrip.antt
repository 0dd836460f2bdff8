-- ===== src/Crypto/Storage/RoundTrip.antt =====
-- A restart restores the session that was saved.
use mathlib.Core.List.{append_assoc, append-nil}
use leave_cli.Prelude.{
  ◌≤◌, ◌≡◌, refl, sym, ap, ◌∙◌, Option, none, some, [], ◌∷◌, ◌++◌, arith, ok, All, length,
}
use leave_cli.Prelude.Text.{text_eq_iff}
use leave_cli.Prelude.Maps.{Assoc, lookup, insert, lookup-insert}
use leave_cli.Crypto.Error.{Bytes}
use leave_cli.Crypto.Codec.{put_bytes, put_count, max_u32}
use leave_cli.Crypto.Codec.Laws.{
  take_bytes-put_bytes, take_count-put_count, put_bytes_behind, put_count_behind,
}
use leave_cli.Crypto.Storage.{sort_entries, put_entries, export, take_entries, restore}
use leave_cli.Crypto.Storage.Order.{
  HasKeysOnce, lookup-sort_entries, length-sort_entries, All-sort_entries,
}

-- The key and the value are short enough for their length to be written.
abbrev pub Fits : Bytes × Bytes → Type 0
Fits e = (length e.0 ≤ max_u32) × (length e.1 ≤ max_u32)

abbrev fill : Assoc Bytes → Assoc Bytes → Assoc Bytes
fill [] values = values
fill ((k, v) ∷ es) values = fill es (insert k v values)

abbrev or_else {ℓ} : {A : Type ℓ} → Option A → Option A → Option A
or_else none o = o
or_else (some a) o = some a

lookup-fill :
    (es values : Assoc Bytes) (j : Bytes)
    → HasKeysOnce es
    → lookup j (fill es values) ≡ or_else (lookup j es) (lookup j values)
unfolding lookup
lookup-fill [] values j once = refl
lookup-fill ((k, v) ∷ es) values j (absent, once) =
    ground (
      arith,
      lookup-fill es (insert k v values) j once,
      lookup-insert k j v values,
      text_eq_iff k j,
    )

lookup-fill_nil :
    (es : Assoc Bytes) (j : Bytes) → HasKeysOnce es → lookup j (fill es []) ≡ lookup j es
unfolding lookup
lookup-fill_nil es j once = ground (arith, lookup-fill es [] j once)

put_entry_behind :
    (buffer k v : Bytes)
    → put_bytes (put_bytes buffer k) v ≡ buffer ++ (put_bytes [] k ++ put_bytes [] v)
put_entry_behind buffer k v =
    put_bytes_behind (put_bytes buffer k) v
    ∙ ap (λ t. t ++ put_bytes [] v) (put_bytes_behind buffer k)
    ∙ append_assoc buffer (put_bytes [] k) (put_bytes [] v)

put_entries_behind :
    (buffer : Bytes) (es : Assoc Bytes) → put_entries buffer es ≡ buffer ++ put_entries [] es
unfolding put_entries
put_entries_behind buffer [] = sym (append-nil buffer)
put_entries_behind buffer ((k, v) ∷ es) =
    put_entries_behind (put_bytes (put_bytes buffer k) v) es
    ∙ ap (λ t. t ++ put_entries [] es)
        (put_entry_behind buffer k v ∙ ap (λ t. buffer ++ t) (sym (put_entry_behind [] k v)))
    ∙ append_assoc buffer (put_bytes (put_bytes [] k) v) (put_entries [] es)
    ∙ ap (λ t. buffer ++ t) (sym (put_entries_behind (put_bytes (put_bytes [] k) v) es))

put_entries-cons :
    (k v rest : Bytes) (es : Assoc Bytes)
    → put_entries [] ((k, v) ∷ es) ++ rest
      ≡ put_bytes [] k ++ (put_bytes [] v ++ (put_entries [] es ++ rest))
unfolding put_entries
put_entries-cons k v rest es =
    ap (λ t. t ++ rest)
      (put_entries_behind (put_bytes (put_bytes [] k) v) es
        ∙ ap (λ t. t ++ put_entries [] es) (put_entry_behind [] k v))
    ∙ append_assoc (put_bytes [] k ++ put_bytes [] v) (put_entries [] es) rest
    ∙ append_assoc (put_bytes [] k) (put_bytes [] v) (put_entries [] es ++ rest)

take_entries-put_entries :
    (es : Assoc Bytes) (rest : Bytes) (values : Assoc Bytes)
    → All Fits es
    → take_entries (length es) (put_entries [] es ++ rest) values ≡ ok (fill es values, rest)
unfolding take_entries put_entries
take_entries-put_entries [] rest values h = refl
take_entries-put_entries ((k, v) ∷ es) rest values ((fk, fv), h) =
    let tail = put_entries [] es ++ rest in
    rw (put_entries-cons k v rest es, take_bytes-put_bytes k (put_bytes [] v ++ tail) fk)
      (rw (take_bytes-put_bytes v tail fv) (take_entries-put_entries es rest (insert k v values) h))

pub export_behind : (m : Assoc Bytes) (buffer : Bytes) → export m buffer ≡ buffer ++ export m []
unfolding export
export_behind m buffer =
    put_entries_behind (put_count buffer (length m)) (sort_entries m)
    ∙ ap (λ t. t ++ put_entries [] (sort_entries m)) (put_count_behind buffer (length m))
    ∙ append_assoc buffer (put_count [] (length m)) (put_entries [] (sort_entries m))
    ∙ ap (λ t. buffer ++ t) (sym (put_entries_behind (put_count [] (length m)) (sort_entries m)))

restore-export_eq :
    (m : Assoc Bytes) (rest : Bytes)
    → All Fits m
    → length m ≤ max_u32
    → restore (export m [] ++ rest) ≡ ok (fill (sort_entries m) [], rest)
unfolding restore export
restore-export_eq m rest fits few =
    let es = sort_entries m in
    let shown : put_entries (put_count [] (length m)) es ++ rest
        ≡ put_count [] (length m) ++ (put_entries [] es ++ rest) =
      ap (λ t. t ++ rest) (put_entries_behind (put_count [] (length m)) es)
      ∙ append_assoc (put_count [] (length m)) (put_entries [] es) rest in
    rw (shown, take_count-put_count (length m) (put_entries [] es ++ rest) few)
      (rw (← length-sort_entries m)
        (take_entries-put_entries es rest [] (All-sort_entries Fits m fits)))

-- The key store read back from an export answers every key as the exported one did, and the cursor
-- stands behind the export. The store holds each key once, as a map does, and its entries and
-- their number fit the 32-bit lengths of the format.
pub restore-export :
    (m : Assoc Bytes) (rest : Bytes)
    → HasKeysOnce m
    → All Fits m
    → length m ≤ max_u32
    → (back : Assoc Bytes) × (restore (export m [] ++ rest) ≡ ok (back, rest))
      × ((key : Bytes) → lookup key back ≡ lookup key m)
restore-export m rest once fits few = (
  fill (sort_entries m) [],
  restore-export_eq m rest fits few,
  λ key.
      let (same, sorted) = lookup-sort_entries m key once in
      lookup-fill_nil (sort_entries m) key sorted ∙ same,
)
