-- ===== src/Store/Replay.antt =====
-- What a client that resumes from a cursor is sent.
use leave_cli.Prelude.{
  ℕ, zero, suc, ◌+◌, ◌≤◌, ◌<◌, ◌≡◌, refl, sym, ap, ◌∙◌, Bool, true, false, some, List, [], ◌∷◌,
  ◌++◌, arith, min, All, All-keep, Bool-cases, inl, inr, keep, take, drop, get_elem?, if◌then◌else◌,
  some-injective,
}
use mathlib.Core.Path.{subst}
use leave_cli.Prelude.Text.{Text}
use leave_cli.Store.{EventRecord, Tables, is_after, events_after}

abbrev pub Above : ℕ → EventRecord → Type 0
Above n e = n < e.sequence

-- Sequences strictly ascend.
abbrev pub IsAscending : List EventRecord → Type 0
IsAscending [] = Unit
IsAscending (e ∷ es) = All (Above e.sequence) es × IsAscending es

-- All events that a cursor leaves to send.
abbrev pub outstanding : Text → ℕ → Tables → List EventRecord
outstanding id cursor t = keep (is_after id cursor) t.events

All-get_elem? :
    (P : EventRecord → Type 0) (es : List EventRecord) (i : ℕ) {e : EventRecord}
    → All P es
    → get_elem? es i ≡ some e
    → P e
All-get_elem? P [] i hs h = cc
All-get_elem? P (x ∷ es) zero (hx, hs) h = subst P (some-injective h) hx
All-get_elem? P (x ∷ es) (suc i) (hx, hs) h = All-get_elem? P es i hs h

-- Beyond an event, two earlier cursors leave the same.
keep-Above :
    (id : Text) (low high : ℕ) (es : List EventRecord)
    → low ≤ high
    → All (Above high) es
    → keep (is_after id high) es ≡ keep (is_after id low) es
keep-Above id low high [] h hs = refl
keep-Above id low high (e ∷ es) h (he, hs) = ground (arith, keep-Above id low high es h hs)

skip :
    (id : Text) (cursor : ℕ) (x : EventRecord) (es : List EventRecord)
    → x.sequence ≤ cursor
    → keep (is_after id cursor) (x ∷ es) ≡ keep (is_after id cursor) es
skip id cursor x es h = ground arith

is_after-lt :
    (id : Text) (cursor : ℕ) (x : EventRecord) → is_after id cursor x ≡ true → cursor < x.sequence
is_after-lt id cursor x h = ground arith

kept_next :
    (id : Text) (cursor : ℕ) (x : EventRecord) (es : List EventRecord) (i : ℕ) (e : EventRecord)
    → All (Above x.sequence) es
    → is_after id cursor x ≡ true
    → get_elem? (x ∷ keep (is_after id cursor) es) i ≡ some e
    → ((j : ℕ)
        → get_elem? (keep (is_after id cursor) es) j ≡ some e
        → keep (is_after id e.sequence) es ≡ drop (suc j) (keep (is_after id cursor) es))
    → keep (is_after id e.sequence) (x ∷ es) ≡ drop i (keep (is_after id cursor) es)
kept_next id cursor x es zero e above kept h rest =
    subst (λ f. keep (is_after id f.sequence) (x ∷ es) ≡ keep (is_after id cursor) es)
      (some-injective h)
      (skip id x.sequence x es (omega arith)
        ∙ keep-Above id cursor x.sequence es (omega (arith, is_after-lt id cursor x kept)) above)
kept_next id cursor x es (suc j) e above kept h rest =
    skip id e.sequence x es (omega (arith, later)) ∙ rest j h
  where
    later : x.sequence < e.sequence
    later =
        All-get_elem? (Above x.sequence) (keep (is_after id cursor) es) j
          (All-keep (Above x.sequence) (is_after id cursor) es above) h

resumed :
    (id : Text) (cursor : ℕ) (es : List EventRecord) (i : ℕ) (e : EventRecord)
    → IsAscending es
    → get_elem? (keep (is_after id cursor) es) i ≡ some e
    → keep (is_after id e.sequence) es ≡ drop (suc i) (keep (is_after id cursor) es)
resumed id cursor [] i e asc h = cc
resumed id cursor (x ∷ es) i e (above, asc) h =
    tested (is_after id cursor x) refl (λ j k. resumed id cursor es j e asc k) h
  where
    later : (j : ℕ) → get_elem? (keep (is_after id cursor) es) j ≡ some e → x.sequence < e.sequence
    later j k =
        All-get_elem? (Above x.sequence) (keep (is_after id cursor) es) j
          (All-keep (Above x.sequence) (is_after id cursor) es above) k

    tested :
        (b : Bool)
        → is_after id cursor x ≡ b
        → ((j : ℕ)
            → get_elem? (keep (is_after id cursor) es) j ≡ some e
            → keep (is_after id e.sequence) es ≡ drop (suc j) (keep (is_after id cursor) es))
        → get_elem? (if b then x ∷ keep (is_after id cursor) es else keep (is_after id cursor) es) i
          ≡ some e
        → keep (is_after id e.sequence) (x ∷ es)
          ≡ drop
              (suc i)
              (if b then x ∷ keep (is_after id cursor) es else keep (is_after id cursor) es)
    tested true kept rest h = kept_next id cursor x es i e above kept h rest
    tested false dropped rest h = skip id e.sequence x es (omega (arith, later i h)) ∙ rest i h

-- Resuming behind any event of a page continues exactly where that event stood: the events still
-- outstanding are those that came after it, none lost, none repeated, in the same order.
pub outstanding-resume :
    (id : Text) (cursor : ℕ) (t : Tables) (i : ℕ) (e : EventRecord)
    → IsAscending t.events
    → get_elem? (outstanding id cursor t) i ≡ some e
    → outstanding id e.sequence t ≡ drop (suc i) (outstanding id cursor t)
outstanding-resume id cursor t i e asc h = resumed id cursor t.events i e asc h

take_nil : (n : ℕ) → take {A = EventRecord} n [] ≡ []
take_nil zero = refl
take_nil (suc n) = refl

take-drop : (a b : ℕ) (es : List EventRecord) → take a es ++ take b (drop a es) ≡ take (a + b) es
take-drop zero b es = ap (λ n. take n es) (omega arith)
take-drop (suc a) b [] = take_nil b ∙ sym (take_nil (suc a + b))
take-drop (suc a) b (e ∷ es) =
    ap (λ r. e ∷ r) (take-drop a b es) ∙ ap (λ n. take n (e ∷ es)) (suc_plus a b)
  where
    suc_plus : (a b : ℕ) → suc (a + b) ≡ suc a + b
    suc_plus a b = omega arith

min_le : (n : ℕ) → n ≤ 1000 → min n 1000 ≡ n
min_le n h = omega arith

pub events_after-take :
    (id : Text) (cursor n : ℕ) (t : Tables)
    → n ≤ 1000
    → events_after id cursor n t ≡ take n (outstanding id cursor t)
unfolding events_after
events_after-take id cursor n t fits = rw (min_le n fits) refl

pub IsAscending-keep :
    (p : EventRecord → Bool) (es : List EventRecord) → IsAscending es → IsAscending (keep p es)
IsAscending-keep p [] asc = tt
IsAscending-keep p (e ∷ es) (above, asc) = elim (Bool-cases (p e)) [
  | inl kept ↦ rw kept (All-keep (Above e.sequence) p es above, IsAscending-keep p es asc)
  | inr dropped ↦ rw dropped (IsAscending-keep p es asc)
]

All-take : (P : EventRecord → Type 0) (n : ℕ) (es : List EventRecord) → All P es → All P (take n es)
All-take P zero es h = tt
All-take P (suc n) [] h = tt
All-take P (suc n) (e ∷ es) (h, hs) = (h, All-take P n es hs)

pub IsAscending-take : (n : ℕ) (es : List EventRecord) → IsAscending es → IsAscending (take n es)
IsAscending-take zero es asc = tt
IsAscending-take (suc n) [] asc = tt
IsAscending-take (suc n) (e ∷ es) (above, asc) =
    (All-take (Above e.sequence) n es above, IsAscending-take n es asc)

-- A page and the page behind its last event together are the page of the joint size.
pub events_after-resume :
    (id : Text) (cursor n m : ℕ) (t : Tables) (e : EventRecord)
    → IsAscending t.events
    → suc n + m ≤ 1000
    → get_elem? (outstanding id cursor t) n ≡ some e
    → events_after id cursor (suc n) t ++ events_after id e.sequence m t
      ≡ events_after id cursor (suc n + m) t
unfolding events_after
events_after-resume id cursor n m t e asc fits h =
    rw (min_le (suc n) (omega arith), min_le m (omega arith), min_le (suc n + m) fits)
      (ap (λ es. take (suc n) (outstanding id cursor t) ++ take m es)
          (outstanding-resume id cursor t n e asc h)
        ∙ take-drop (suc n) m (outstanding id cursor t))
