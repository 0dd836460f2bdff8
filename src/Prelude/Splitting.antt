-- ===== src/Prelude/Splitting.antt =====
-- A text split at a byte that its first part does not hold.
use Prim.Native.Nat.{ℕ}
use mathlib.Core.Path.{◌≡◌, refl}
use mathlib.Core.Bool.{false}
use mathlib.Core.Option.{none, some}
use mathlib.Core.List.{[], ◌∷◌, ◌++◌}
use native.Mathlib.Omega.{arith}
use leave_cli.Prelude.Tests.{==_refl}
use leave_cli.Prelude.Text.{Text, before, has_byte, split_once, split}

pub before-append : (c : ℕ) (s q : Text) → has_byte c s ≡ false → before c (s ++ c ∷ q) ≡ s
unfolding before
before-append c [] q h = rw (==_refl c)
before-append c (a ∷ s) q h = ground (arith, before-append c s q)

pub before_absent : (c : ℕ) (s : Text) → has_byte c s ≡ false → before c s ≡ s
unfolding before
before_absent c [] h = refl
before_absent c (a ∷ s) h = ground (arith, before_absent c s)

pub split_once-append :
    (c : ℕ) (s q : Text) → has_byte c s ≡ false → split_once c (s ++ c ∷ q) ≡ some (s, q)
unfolding split_once
split_once-append c [] q h = rw (==_refl c)
split_once-append c (a ∷ s) q h = ground (arith, split_once-append c s q)

pub split_once_absent : (c : ℕ) (s : Text) → has_byte c s ≡ false → split_once c s ≡ none
unfolding split_once
split_once_absent c [] h = refl
split_once_absent c (a ∷ s) h = ground (arith, split_once_absent c s)

pub split_absent : (c : ℕ) (s : Text) → has_byte c s ≡ false → split c s ≡ s ∷ []
unfolding split
split_absent c [] h = refl
split_absent c (a ∷ s) h = ground (arith, split_absent c s)

pub split-append :
    (c : ℕ) (s q : Text) → has_byte c s ≡ false → split c (s ++ c ∷ q) ≡ s ∷ split c q
unfolding split
split-append c [] q h = rw (==_refl c)
split-append c (a ∷ s) q h = ground (arith, split-append c s q)
