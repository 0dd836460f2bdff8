-- ===== src/Prelude/Maps.antt =====
-- A map keyed by text (`HashMap`, `BTreeMap`), as an association list; the program's own maps are
-- read by key only, so the order of entries is not observed.
use mathlib.Core.Path.{◌≡◌, ◌∙◌}
use mathlib.Core.Logic.{◌≢◌}
use mathlib.Core.Option.{Option, none, some}
use mathlib.Core.List.{List, [], ◌∷◌}
use native.Mathlib.Omega.{arith}
use leave_cli.Prelude.Tests.{if◌then◌else◌}
use leave_cli.Prelude.Text.{Text, text_eq, text_eq_iff, text_eq_refl}

abbrev pub Assoc {ℓ} : Type ℓ → Type ℓ
Assoc V = List (Text × V)

module _ {ℓ} {V : Type ℓ} where
  unfoldable pub lookup : Text → Assoc V → Option V
  lookup k [] = none
  lookup k ((j, v) ∷ m) = if text_eq j k then some v else lookup k m

  unfoldable pub remove : Text → Assoc V → Assoc V
  remove k [] = []
  remove k ((j, v) ∷ m) = let rest = remove k m in if text_eq j k then rest else (j, v) ∷ rest

  unfoldable pub insert : Text → V → Assoc V → Assoc V
  insert k v m = (k, v) ∷ remove k m

  pub lookup-remove :
      (k j : Text) (m : Assoc V)
      → lookup j (remove k m) ≡ (if text_eq k j then none else lookup j m)
  unfolding lookup remove
  lookup-remove k j [] = ground arith
  lookup-remove k j ((i, v) ∷ m) =
      ground (arith, lookup-remove k j m, text_eq_iff i k, text_eq_iff i j, text_eq_iff k j)

  pub lookup-insert :
      (k j : Text) (v : V) (m : Assoc V)
      → lookup j (insert k v m) ≡ (if text_eq k j then some v else lookup j m)
  unfolding lookup insert
  lookup-insert k j v m = ground (arith, lookup-remove k j m)

  pub lookup-insert_self : (k : Text) (v : V) (m : Assoc V) → lookup k (insert k v m) ≡ some v
  lookup-insert_self k v m = lookup-insert k k v m ∙ rw (text_eq_refl k)

  pub lookup-insert_ne :
      (k j : Text) (v : V) (m : Assoc V) → j ≢ k → lookup j (insert k v m) ≡ lookup j m
  lookup-insert_ne k j v m h = lookup-insert k j v m ∙ ground (arith, text_eq_iff k j)

  pub lookup-remove_self : (k : Text) (m : Assoc V) → lookup k (remove k m) ≡ none
  lookup-remove_self k m = lookup-remove k k m ∙ rw (text_eq_refl k)

  pub lookup-remove_ne : (k j : Text) (m : Assoc V) → j ≢ k → lookup j (remove k m) ≡ lookup j m
  lookup-remove_ne k j m h = lookup-remove k j m ∙ ground (arith, text_eq_iff k j)
