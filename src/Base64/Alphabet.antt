-- ===== src/Base64/Alphabet.antt =====
-- The alphabet has 64 different characters, none of them the padding.
use leave_cli.Prelude.{
  ℕ, zero, suc, ◌+◌, ◌<◌, ◌≤◌, ◌≡◌, ◌∙◌, refl, sym, ap, inl, inr, Bool-cases, ==_iff, Bool, true,
  false, not, ◌&&◌, none, some, arith, ◌==◌,
}
use leave_cli.Base64.{alphabet, at, position}

abbrev is_found : ℕ → Bool
is_found i =
    not (at alphabet i == b'=')
    && elim (position (at alphabet i)) [ none ↦ false | some p ↦ p == i ]

-- Whether all of `count` values from `start` on are found.
found_from : ℕ → ℕ → Bool
unfolding alphabet at position
found_from start zero = true
found_from start (suc count) = is_found start && found_from (suc start) count

lt_of : (start i : ℕ) → start ≤ i → (start == i) ≡ false → start < i
lt_of start i low differ = ground arith

found_within :
    (start count i : ℕ)
    → found_from start count ≡ true
    → start ≤ i
    → i < start + count
    → is_found i ≡ true
unfolding found_from
found_within start zero i all low high = absurd (omega arith)
found_within start (suc count) i all low high =
    let (here, later) = both (is_found start) (found_from (suc start) count) all in
    elim (Bool-cases (start == i)) [
      | inl same ↦ ap is_found (sym ((==_iff start i).0 same)) ∙ here
      | inr differ ↦ found_within (suc start) count i later (lt_of start i low differ) (omega arith)
    ]
  where
    both : (p q : Bool) → (p && q) ≡ true → (p ≡ true) × (q ≡ true)
    both true q h = (refl, h)
    both false q h = cc

table : found_from 0 64 ≡ true
unfolding found_from alphabet at position
table = refl

is_found-true : (i : ℕ) → i < 64 → is_found i ≡ true
is_found-true i h = found_within 0 64 i table (omega arith) (omega arith)

pub at-ne-padding : (i : ℕ) → i < 64 → (at alphabet i == b'=') ≡ false
at-ne-padding i h = ground (arith, is_found-true i)

pub position-at : (i : ℕ) → i < 64 → position (at alphabet i) ≡ some i
position-at i h = ground (arith, is_found-true i)
