-- ===== src/Tunnel/Queries.antt =====
-- A query string: what it yields, and that it cannot disguise the route.
use leave_cli.Prelude.{
  ◌≡◌, ◌↔◌, ◌⊎◌, inl, inr, refl, ap, ◌∙◌, true, false, ◌||◌, List, [], ◌∷◌, ◌++◌, arith, Option,
  none, some, if◌then◌else◌, find_map, All, Bool-cases,
}
use leave_cli.Prelude.Text.{
  Text, codes, text_eq, text_eq_iff, text_eq_refl, starts_with, has_byte, split, split_once,
}
use leave_cli.Prelude.Splitting.{
  before-append, before_absent, split_once-append, split_once_absent, split_absent, split-append,
}
use leave_cli.Prelude.Maps.{lookup}
use leave_cli.Policy.{Action, project_customization}
use leave_cli.Tunnel.{action_for, customization, query_value, pair_value, customization_action}
use leave_cli.Tunnel.Classes.{action_for-customization}

-- Outside the customization surface, what follows the `?` of a path never changes its action.
pub action_for-query :
    (m route q : Text)
    → has_byte b'?' route ≡ false
    → starts_with route customization ≡ false
    → action_for m (route ++ b'?' ∷ q) ≡ action_for m route
unfolding action_for
action_for-query m route q plain other =
    rw (before-append b'?' route q plain, before_absent b'?' route plain, other) refl

customization_action_iff :
    (o : Option Text)
    → (customization_action o ≡ project_customization)
      ↔ ((o ≡ some (codes "rules")) ⊎ (o ≡ some (codes "skills")))
unfolding customization_action
customization_action_iff none = ground arith
customization_action_iff (some v) =
    ground (arith, text_eq_iff v (codes "rules"), text_eq_iff v (codes "skills"))

pair_value-append :
    (key name value : Text)
    → has_byte b'=' name ≡ false
    → pair_value key (name ++ b'=' ∷ value) ≡ (if text_eq name key then some value else none)
pair_value-append key name value named =
    rw (split_once-append b'=' name value named, pair_value) refl

-- A path `route?name=value` yields its value under that name, and nothing under another name.
pub query_value_single :
    (route key name value : Text)
    → has_byte b'?' route ≡ false
    → has_byte b'=' name ≡ false
    → has_byte b'&' (name ++ b'=' ∷ value) ≡ false
    → query_value (route ++ b'?' ∷ (name ++ b'=' ∷ value)) key
      ≡ (if text_eq name key then some value else none)
unfolding query_value
query_value_single route key name value plain named single =
    rw (split_once-append b'?' route (name ++ b'=' ∷ value) plain, query_value)
      (rw (split_absent b'&' (name ++ b'=' ∷ value) single)
        (rw (pair_value-append key name value named, find_map) (ground arith)))

-- The first pair under the name counts: a later one cannot replace it.
pub query_value_first :
    (route key value rest : Text)
    → has_byte b'?' route ≡ false
    → has_byte b'=' key ≡ false
    → has_byte b'&' (key ++ b'=' ∷ value) ≡ false
    → query_value (route ++ b'?' ∷ ((key ++ b'=' ∷ value) ++ b'&' ∷ rest)) key ≡ some value
unfolding query_value
query_value_first route key value rest plain named single =
    rw (split_once-append b'?' route ((key ++ b'=' ∷ value) ++ b'&' ∷ rest) plain, query_value)
      (rw (split-append b'&' (key ++ b'=' ∷ value) rest single)
        (rw (pair_value-append key key value named, find_map) (rw (text_eq_refl key))))

-- A query of pairs, each printed as `name=value`, with `&` between them.
abbrev pub pair_text : Text × Text → Text
pair_text (name, value) = name ++ b'=' ∷ value

abbrev pub query_text : List (Text × Text) → Text
query_text [] = []
query_text (pair ∷ []) = pair_text pair
query_text (pair ∷ next ∷ pairs) = pair_text pair ++ b'&' ∷ query_text (next ∷ pairs)

-- A name without `=`, and no `&` in the pair.
abbrev pub IsPair : Text × Text → Type 0
IsPair (name, value) = (has_byte b'=' name ≡ false) × (has_byte b'&' (name ++ b'=' ∷ value) ≡ false)

find_pair :
    (key name value : Text) (rest : List Text) (pairs : List (Text × Text))
    → has_byte b'=' name ≡ false
    → find_map (pair_value key) rest ≡ lookup key pairs
    → find_map (pair_value key) ((name ++ b'=' ∷ value) ∷ rest) ≡ lookup key ((name, value) ∷ pairs)
unfolding lookup
find_pair key name value rest pairs named h =
    rw (pair_value-append key name value named, find_map) (ground (arith, h))

find-query_text :
    (key : Text) (pairs : List (Text × Text))
    → All IsPair pairs
    → find_map (pair_value key) (split b'&' (query_text pairs)) ≡ lookup key pairs
unfolding lookup split split_once
find-query_text key [] h = refl
find-query_text key ((name, value) ∷ []) ((named, single), h) =
    ap (find_map (pair_value key)) (split_absent b'&' (name ++ b'=' ∷ value) single)
    ∙ find_pair key name value [] [] named refl
find-query_text key ((name, value) ∷ next ∷ pairs) ((named, single), h) =
    ap (find_map (pair_value key))
      (split-append b'&' (name ++ b'=' ∷ value) (query_text (next ∷ pairs)) single)
    ∙ find_pair key name value (split b'&' (query_text (next ∷ pairs))) (next ∷ pairs) named
        (find-query_text key (next ∷ pairs) h)

query_value-query_text :
    (route key : Text) (pairs : List (Text × Text))
    → has_byte b'?' route ≡ false
    → All IsPair pairs
    → query_value (route ++ b'?' ∷ query_text pairs) key ≡ lookup key pairs
unfolding query_value
query_value-query_text route key pairs plain h =
    rw (split_once-append b'?' route (query_text pairs) plain, query_value)
      (find-query_text key pairs h)

query_value_absent : (route key : Text) → has_byte b'?' route ≡ false → query_value route key ≡ none
unfolding query_value
query_value_absent route key plain = rw (split_once_absent b'?' route plain, query_value) refl

abbrev IsProjectCategory : Option Text → Type 0
IsProjectCategory o = (o ≡ some (codes "rules")) ⊎ (o ≡ some (codes "skills"))

customization_action-global :
    (o : Option Text) → ¬ IsProjectCategory o → customization_action o ≡ Action.global_customization
unfolding customization_action
customization_action-global none h = refl
customization_action-global (some v) h =
    elim (Bool-cases (text_eq v (codes "rules") || text_eq v (codes "skills"))) [
      | inl listed ↦
          absurd
            (h ((customization_action_iff (some v)).0 (rw (listed, customization_action) refl)))
      | inr other ↦ rw other refl
    ]

-- Whatever the method, a customization request whose query is a list of pairs is of project scope
-- exactly when the first pair named `category` has the value `rules` or `skills`, and it is of global
-- scope otherwise: also with no such pair, and with no query at all.
pub customization_scope :
    (m route : Text) (pairs : List (Text × Text))
    → has_byte b'?' route ≡ false
    → starts_with route customization ≡ true
    → All IsPair pairs
    → let asked = lookup (codes "category") pairs in
      let action = action_for m (route ++ b'?' ∷ query_text pairs) in
      ((action ≡ project_customization)
        ↔ ((asked ≡ some (codes "rules")) ⊎ (asked ≡ some (codes "skills"))))
      × (¬ ((asked ≡ some (codes "rules")) ⊎ (asked ≡ some (codes "skills")))
          → action ≡ Action.global_customization)
      × (action_for m route ≡ Action.global_customization)
customization_scope m route pairs plain under h =
    let p = route ++ b'?' ∷ query_text pairs in
    let asked = query_value-query_text route (codes "category") pairs plain h in
    let classed : action_for m p ≡ customization_action (lookup (codes "category") pairs) =
      action_for-customization m p (rw (before-append b'?' route (query_text pairs) plain) under)
      ∙ ap customization_action asked in
    (
      rw classed (customization_action_iff (lookup (codes "category") pairs)),
      λ other. classed ∙ customization_action-global (lookup (codes "category") pairs) other,
      action_for-customization m route (rw (before_absent b'?' route plain) under)
          ∙ ap customization_action (query_value_absent route (codes "category") plain)
          ∙ customization_action-global none (λ h. elim h [ inl e ↦ cc | inr e ↦ cc ]),
    )
