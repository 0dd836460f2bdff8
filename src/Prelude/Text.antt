-- ===== src/Prelude/Text.antt =====
-- Text as its UTF-8 bytes, and the methods of `str` that the program uses on it.
use Prim.Native.Nat.{ℕ}
use Prim.Native.Char.{code}
use Prim.Native.String.{String}
use mathlib.Core.Path.{◌≡◌, refl, ap}
use mathlib.Core.Logic.{◌↔◌, inl, inr}
use mathlib.Core.Bool.{Bool, true, false, ◌&&◌, ◌||◌}
use mathlib.Core.Option.{Option, none, some}
use mathlib.Core.List.{List, [], ◌∷◌, ◌++◌, reverse}
use native.Mathlib.Omega.{arith}
use leave_cli.Prelude.Tests.{◌==◌, if◌then◌else◌, Bool-cases, leb}
use leave_cli.Prelude.Lists.{any}

abbrev pub Text : Type 0
Text = List ℕ

-- The bytes of an ASCII literal.
unfoldable pub codes : String → Text
codes String.[] = []
codes (String.◌∷◌ c s) = code c ∷ codes s

-- `is_empty` of a text or of bytes.
abbrev pub is_empty {ℓ} : {A : Type ℓ} → List A → Bool
is_empty [] = true
is_empty (x ∷ xs) = false

unfoldable pub text_eq : Text → Text → Bool
text_eq [] [] = true
text_eq (a ∷ s) (b ∷ t) = a == b && text_eq s t
text_eq _ _ = false

-- `str::starts_with`, the text first.
unfoldable pub starts_with : Text → Text → Bool
starts_with s [] = true
starts_with [] (b ∷ p) = false
starts_with (a ∷ s) (b ∷ p) = a == b && starts_with s p

-- `str::strip_prefix`.
unfoldable pub strip_prefix : Text → Text → Option Text
strip_prefix s [] = some s
strip_prefix [] (b ∷ p) = none
strip_prefix (a ∷ s) (b ∷ p) = if a == b then strip_prefix s p else none

-- `str::contains` with a text for a pattern.
unfoldable pub contains : Text → Text → Bool
unfolding starts_with
contains [] p = starts_with [] p
contains (a ∷ s) p = starts_with (a ∷ s) p || contains s p

-- `str::ends_with`.
unfoldable pub ends_with : Text → Text → Bool
unfolding text_eq
ends_with [] p = text_eq [] p
ends_with (a ∷ s) p = text_eq (a ∷ s) p || ends_with s p

-- `str::split_once` at one byte.
unfoldable pub split_once : ℕ → Text → Option (Text × Text)
split_once c [] = none
split_once c (a ∷ s) =
    let rest = split_once c s in
    if a == c then some ([], s) else elim rest [ none ↦ none | some (l, r) ↦ some (a ∷ l, r) ]

abbrev push_front : ℕ → List Text → List Text
push_front a [] = (a ∷ []) ∷ []
push_front a (p ∷ ps) = (a ∷ p) ∷ ps

-- `str::split` at one byte: one part more than there are separators.
unfoldable pub split : ℕ → Text → List Text
split c [] = [] ∷ []
split c (a ∷ s) = let rest = split c s in if a == c then [] ∷ rest else push_front a rest

-- The part before the first separator: `split(c).next()`.
unfoldable pub before : ℕ → Text → Text
before c [] = []
before c (a ∷ s) = if a == c then [] else a ∷ before c s

-- `slice::contains` for one byte.
abbrev pub has_byte : ℕ → Text → Bool
has_byte c s = any (λ a. a == c) s

pub text_eq_iff : (s t : Text) → (text_eq s t ≡ true) ↔ (s ≡ t)
unfolding text_eq
text_eq_iff [] [] = (λ _. refl, λ _. refl)
text_eq_iff [] (b ∷ t) = (λ h. cc, λ h. cc)
text_eq_iff (a ∷ s) [] = (λ h. cc, λ h. cc)
text_eq_iff (a ∷ s) (b ∷ t) = ground (arith, text_eq_iff s t)

pub text_eq_refl : (s : Text) → text_eq s s ≡ true
text_eq_refl s = (text_eq_iff s s).1 refl

-- A text starts with a prefix exactly when it is the prefix followed by the rest.
pub starts_with-append : (p r : Text) → starts_with (p ++ r) p ≡ true
unfolding starts_with
starts_with-append [] r = refl
starts_with-append (b ∷ p) r = ground (arith, starts_with-append p r)

pub starts_with-eq-append : (s p : Text) → starts_with s p ≡ true → (r : Text) × (s ≡ p ++ r)
unfolding starts_with
starts_with-eq-append s [] h = (s, refl)
starts_with-eq-append [] (b ∷ p) h = cc
starts_with-eq-append (a ∷ s) (b ∷ p) h =
    let (r, e) = starts_with-eq-append s p (ground arith) in (r, ground arith)

pub strip_prefix-append : (p r : Text) → strip_prefix (p ++ r) p ≡ some r
unfolding strip_prefix
strip_prefix-append [] r = refl
strip_prefix-append (b ∷ p) r = ground (arith, strip_prefix-append p r)

pub strip_prefix-eq-append : (s p : Text) {r : Text} → strip_prefix s p ≡ some r → s ≡ p ++ r
unfolding strip_prefix
strip_prefix-eq-append s [] h = cc
strip_prefix-eq-append [] (b ∷ p) h = cc
strip_prefix-eq-append (a ∷ s) (b ∷ p) {r} h = ground (arith, strip_prefix-eq-append s p {r = r})

-- The text holds the pattern somewhere.
abbrev pub Within : Text → Text → Type 0
Within p s = (l : Text) × (r : Text) × (s ≡ l ++ (p ++ r))

pub contains-append : (l p r : Text) → contains (l ++ (p ++ r)) p ≡ true
unfolding contains
contains-append [] [] [] = refl
contains-append [] [] (a ∷ r) = refl
contains-append [] (b ∷ p) r = ground (arith, starts_with-append (b ∷ p) r)
contains-append (a ∷ l) p r = ground (arith, contains-append l p r)

pub contains-Within : (s p : Text) → contains s p ≡ true → Within p s
unfolding contains
contains-Within [] p h = let (r, e) = starts_with-eq-append [] p h in ([], r, e)
contains-Within (a ∷ s) p h = elim (Bool-cases (starts_with (a ∷ s) p)) [
  | inl here ↦ let (r, e) = starts_with-eq-append (a ∷ s) p here in ([], r, e)
  | inr later ↦ let (l, r, e) = contains-Within s p (rw later at h) in (a ∷ l, r, ap (λ t. a ∷ t) e)
]

-- `contains` finds nothing exactly when the text holds the pattern nowhere.
pub contains-eq-false_iff : (s p : Text) → (contains s p ≡ false) ↔ (¬ Within p s)
contains-eq-false_iff s p = (
  λ h w. let (l, r, e) = w in cc (h, ap (λ (t : Text). contains t p) e, contains-append l p r),
  λ absent. elim (Bool-cases (contains s p)) [
    | inl found ↦ absurd (absent (contains-Within s p found))
    | inr missed ↦ missed
  ],
)

abbrev is_ascii_space : ℕ → Bool
is_ascii_space c = c == b' ' || (leb 9 c && leb c 13)

unfoldable pub trim_start : Text → Text
trim_start [] = []
trim_start (c ∷ s) = if is_ascii_space c then trim_start s else c ∷ s

-- `str::trim` of a text of visible ASCII.
unfoldable pub trim_ascii : Text → Text
unfolding trim_start
trim_ascii s = reverse (trim_start (reverse (trim_start s)))
