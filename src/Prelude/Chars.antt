-- ===== src/Prelude/Chars.antt =====
-- UTF-8 text seen as characters: `str::trim`, and `chars().take(n).collect()`.
use Prim.Native.Nat.{ℕ, zero, suc, ◌≤◌}
use mathlib.Core.Bool.{Bool, ◌&&◌, ◌||◌}
use mathlib.Core.List.{[], ◌∷◌, reverse}
use native.Mathlib.Omega.{arith}
use leave_cli.Prelude.Tests.{◌==◌, leb, ltb, if◌then◌else◌}
use leave_cli.Prelude.Text.{Text}

-- White space in one byte, in two and in three.
abbrev white_1 : ℕ → Bool
white_1 a = a == 0x20 || (leb 9 a && leb a 13)

abbrev white_2 : ℕ → ℕ → Bool
white_2 a b = a == 0xC2 && (b == 0x85 || b == 0xA0)

abbrev white_3 : ℕ → ℕ → ℕ → Bool
white_3 a b c =
    (a == 0xE1 && b == 0x9A && c == 0x80)
    || (a == 0xE2
        && b == 0x80
        && ((leb 0x80 c && leb c 0x8A) || c == 0xA8 || c == 0xA9 || c == 0xAF))
    || (a == 0xE2 && b == 0x81 && c == 0x9F)
    || (a == 0xE3 && b == 0x80 && c == 0x80)

-- What is left in front of the first character that is not white, read in either direction.
module _ (one : ℕ → Bool) (two : ℕ → ℕ → Bool) (three : ℕ → ℕ → ℕ → Bool) where
  skip_white : Text → Text
  skip_white [] = []
  skip_white (a ∷ []) = if one a then [] else a ∷ []
  skip_white (a ∷ b ∷ []) =
      let short = skip_white (b ∷ []) in if one a then short else if two a b then [] else a ∷ b ∷ []
  skip_white (a ∷ b ∷ c ∷ s) =
      let short = skip_white (b ∷ c ∷ s) in
      let middle = skip_white (c ∷ s) in
      let long = skip_white s in
      if one a
      then short
      else if two a b
      then middle
      else if three a b c
      then long
      else a ∷ b ∷ c ∷ s

-- `str::trim`.
unfoldable pub trim : Text → Text
unfolding skip_white
trim s = reverse (
    skip_white white_1 (λ b a. white_2 a b) (λ c b a. white_3 a b c)
      (reverse (skip_white white_1 white_2 white_3 s)))

abbrev pub is_continuation : ℕ → Bool
is_continuation b = leb 128 b && ltb b 192

-- How many characters a text has: the bytes that begin one.
abbrev pub count_chars : Text → ℕ
count_chars [] = 0
count_chars (b ∷ s) = if is_continuation b then count_chars s else suc (count_chars s)

-- `chars().take(n).collect()`.
unfoldable pub take_chars : ℕ → Text → Text
take_chars n [] = []
take_chars zero (b ∷ s) = if is_continuation b then b ∷ take_chars zero s else []
take_chars (suc n) (b ∷ s) =
    let same = take_chars (suc n) s in
    let fewer = take_chars n s in if is_continuation b then b ∷ same else b ∷ fewer

pub count_chars-take_chars : (n : ℕ) (s : Text) → count_chars (take_chars n s) ≤ n
unfolding take_chars
count_chars-take_chars n [] = omega arith
count_chars-take_chars zero (b ∷ s) = ground (arith, count_chars-take_chars zero s)
count_chars-take_chars (suc n) (b ∷ s) =
    ground (arith, count_chars-take_chars (suc n) s, count_chars-take_chars n s)
