-- ===== src/Customization/Grants.antt =====
-- What a customization request needs before `devin` is run for it.
use leave_cli.Prelude.{
  ◌≡◌, refl, ap, sym, ◌∙◌, inl, inr, Bool, true, false, not, ◌&&◌, ◌||◌, Option, List, [], ◌∷◌,
  ◌++◌, Result, ok, err, refuse_if, ◌>>=◌, ◌>>◌, >>=-eq-ok, arith, Bool-cases, if◌then◌else◌,
}
use mathlib.Core.Path.{subst}
use leave_cli.Prelude.Text.{Text, codes, text_eq, text_eq_iff}
use leave_cli.Customization.{
  CustomizationMutation, Url, is_switching, validate_name, checked_scope, require_confirmation,
  uppercase, add_mcp_arguments, mutation_arguments, plugin_arguments, mcp_arguments,
  validate_plugin_source, transport_arguments,
}
use leave_cli.Customization.Skills.{CustomizationError, global_plugins, unsupported}

-- The phrase that a person has to type: the action and the kind in capitals, then the name.
abbrev phrase_of : Text → Text → Text → Text
phrase_of action kind name = uppercase action ++ codes " " ++ uppercase kind ++ codes " " ++ name

abbrev pub phrase : CustomizationMutation → Text
phrase m = phrase_of m.action m.kind m.name

-- Arguments that touch nothing beyond the project: an MCP command with a scope that is not `user`.
abbrev pub is_project_run : List Text → Bool
is_project_run (a ∷ b ∷ c ∷ scope ∷ rest) =
    text_eq a (codes "mcp")
    && text_eq c (codes "--scope")
    && (text_eq scope (codes "local") || text_eq scope (codes "project"))
is_project_run _ = false

require_confirmation-ok :
    (actual expected : Text) → require_confirmation actual expected ≡ ok tt → actual ≡ expected
unfolding require_confirmation
require_confirmation-ok actual expected h = ground (arith, text_eq_iff actual expected)

-- A scope that passes is one of three, and `user` only with the grant.
checked_scope-ok :
    (given : Text) (allow_global : Bool) {scope : Text}
    → checked_scope given allow_global ≡ ok scope
    → (allow_global || (text_eq scope (codes "local") || text_eq scope (codes "project"))) ≡ true
unfolding checked_scope
checked_scope-ok given true h = refl
checked_scope-ok given false h = ground arith

built_of : List Text → Result CustomizationError (List Text) → List Text
built_of before (ok built) = built
built_of before (err e) = before

ok-injective :
    {a b : List Text} → ◌≡◌ {A = Result CustomizationError (List Text)} (ok a) (ok b) → a ≡ b
unfolding built_of
ok-injective {a = a} e = ap (built_of a) e

module _ (parse : Text → Option Url) (m : CustomizationMutation) where
  -- What a mutation has when it gets as far as the program with these arguments.
  abbrev pub IsGranted : Bool → List Text → Type 0
  IsGranted allow_global arguments =
      (m.confirmation ≡ phrase m) × ((allow_global || is_project_run arguments) ≡ true)

  confirmed :
      (action kind expected : Text)
      → text_eq m.action action ≡ true
      → text_eq m.kind kind ≡ true
      → expected ≡ phrase_of action kind m.name
      → require_confirmation m.confirmation expected ≡ ok tt
      → m.confirmation ≡ phrase m
  confirmed action kind expected ea ek e h =
      require_confirmation-ok m.confirmation expected h
      ∙ e
      ∙ ap (λ a. phrase_of a kind m.name) (sym ((text_eq_iff m.action action).0 ea))
      ∙ ap (λ k. phrase_of m.action k m.name) (sym ((text_eq_iff m.kind kind).0 ek))

  -- One plugin action, whose run needs a phrase.
  plugin_confirmed :
      (action expected : Text) (run_arguments : List Text) {arguments : List Text}
      → text_eq m.action action ≡ true
      → text_eq m.kind (codes "plugin") ≡ true
      → expected ≡ phrase_of action (codes "plugin") m.name
      → (require_confirmation m.confirmation expected >> ok run_arguments) ≡ ok arguments
      → m.confirmation ≡ phrase m
  plugin_confirmed action expected run_arguments ea ek e h =
      let (passed, typed, same) =
        >>=-eq-ok (require_confirmation m.confirmation expected) (λ _. ok run_arguments) h in
      confirmed action (codes "plugin") expected ea ek e typed

  plugin-confirmed :
      {arguments : List Text}
      → text_eq m.kind (codes "plugin") ≡ true
      → plugin_arguments parse m ≡ ok arguments
      → m.confirmation ≡ phrase m
  unfolding codes
  plugin-confirmed ek h = elim (Bool-cases (text_eq m.action (codes "install"))) [
    | inl install ↦
        let (passed, valid, rest) =
          >>=-eq-ok (validate_plugin_source parse m.name)
            (λ _.
              require_confirmation m.confirmation (codes "INSTALL PLUGIN " ++ m.name)
              >> ok (
                  codes "plugins"
                  ∷ codes "install"
                  ∷ codes "--yes"
                  ∷ codes "--local"
                  ∷ m.name
                  ∷ []))
            (rw install at h) in
        plugin_confirmed (codes "install") (codes "INSTALL PLUGIN " ++ m.name) _ install ek refl
          rest
    | inr other ↦ elim (Bool-cases (text_eq m.action (codes "remove"))) [
      | inl removal ↦
          plugin_confirmed (codes "remove") (codes "REMOVE PLUGIN " ++ m.name)
            (codes "plugins" ∷ codes "remove" ∷ codes "--yes" ∷ codes "--local" ∷ m.name ∷ [])
            removal ek refl (rw (other, removal) at h)
      | inr another ↦ elim (Bool-cases (text_eq m.action (codes "update"))) [
        | inl update ↦
            plugin_confirmed (codes "update") (codes "UPDATE PLUGIN " ++ m.name)
              (codes "plugins" ∷ codes "update" ∷ m.name ∷ []) update ek refl
              (rw (other, another, update) at h)
        | inr none_of ↦ cc (rw (other, another, none_of) at h)
      ]
    ]
  ]

  -- An MCP command with a checked scope.
  scoped :
      (allow_global : Bool) (action scope : Text) (rest : List Text)
      → checked_scope m.scope allow_global ≡ ok scope
      → (allow_global || is_project_run (codes "mcp" ∷ action ∷ codes "--scope" ∷ scope ∷ rest))
        ≡ true
  unfolding codes text_eq
  scoped allow_global action scope rest h = checked_scope-ok m.scope allow_global h

  switched :
      (action : Text)
      → text_eq m.action action ≡ true
      → text_eq m.kind (codes "mcp") ≡ true
      → (uppercase action ++ codes " MCP " ++ m.name) ≡ phrase_of action (codes "mcp") m.name
      → require_confirmation m.confirmation (uppercase m.action ++ codes " MCP " ++ m.name) ≡ ok tt
      → m.confirmation ≡ phrase m
  switched action ea ek e h =
      confirmed action (codes "mcp") (uppercase m.action ++ codes " MCP " ++ m.name) ea ek
        (ap (λ a. uppercase a ++ codes " MCP " ++ m.name) ((text_eq_iff m.action action).0 ea) ∙ e)
        h

  switching :
      is_switching m.action ≡ true
      → text_eq m.kind (codes "mcp") ≡ true
      → require_confirmation m.confirmation (uppercase m.action ++ codes " MCP " ++ m.name) ≡ ok tt
      → m.confirmation ≡ phrase m
  unfolding codes
  switching one ek h = elim (Bool-cases (text_eq m.action (codes "enable"))) [
    | inl enable ↦ switched (codes "enable") enable ek refl h
    | inr other ↦ elim (Bool-cases (text_eq m.action (codes "disable"))) [
      | inl disable ↦ switched (codes "disable") disable ek refl h
      | inr another ↦ switched (codes "remove") (rw (other, another) at one) ek refl h
    ]
  ]

  add-IsGranted :
      (allow_global : Bool) {arguments : List Text}
      → text_eq m.action (codes "add") ≡ true
      → text_eq m.kind (codes "mcp") ≡ true
      → add_mcp_arguments parse m allow_global ≡ ok arguments
      → IsGranted allow_global arguments
  unfolding add_mcp_arguments codes text_eq
  add-IsGranted allow_global ea ek h =
      let confirm = λ (scope : Text).
        require_confirmation m.confirmation (codes "ADD MCP " ++ m.name)
        >> (transport_arguments parse m >>= λ more.
            ok ((codes "mcp" ∷ codes "add" ∷ codes "--scope" ∷ scope ∷ m.name ∷ []) ++ more)) in
      let (scope, fits, rest) = >>=-eq-ok (checked_scope m.scope allow_global) confirm h in
      let (passed, typed, last) =
        >>=-eq-ok (require_confirmation m.confirmation (codes "ADD MCP " ++ m.name))
          (λ _. transport_arguments parse m >>= λ more.
            ok ((codes "mcp" ∷ codes "add" ∷ codes "--scope" ∷ scope ∷ m.name ∷ []) ++ more))
          rest in
      let (more, built, same) =
        >>=-eq-ok (transport_arguments parse m)
          (λ more. ok ((codes "mcp" ∷ codes "add" ∷ codes "--scope" ∷ scope ∷ m.name ∷ []) ++ more))
          last in
      (
        confirmed (codes "add") (codes "mcp") (codes "ADD MCP " ++ m.name) ea ek refl typed,
        subst (λ a. (allow_global || is_project_run a) ≡ true) (ok-injective same)
            (scoped allow_global (codes "add") scope (m.name ∷ more) fits),
      )

  mcp-IsGranted :
      (allow_global : Bool) {arguments : List Text}
      → text_eq m.kind (codes "mcp") ≡ true
      → mcp_arguments parse m allow_global ≡ ok arguments
      → IsGranted allow_global arguments
  mcp-IsGranted allow_global ek h = elim (Bool-cases (is_switching m.action)) [
    | inl one ↦
        let (scope, fits, rest) =
          >>=-eq-ok (checked_scope m.scope allow_global)
            (λ scope.
              require_confirmation m.confirmation (uppercase m.action ++ codes " MCP " ++ m.name)
              >> ok (codes "mcp" ∷ m.action ∷ codes "--scope" ∷ scope ∷ m.name ∷ []))
            (rw one at h) in
        let (passed, typed, same) =
          >>=-eq-ok
            (require_confirmation m.confirmation (uppercase m.action ++ codes " MCP " ++ m.name))
            (λ _. ok (codes "mcp" ∷ m.action ∷ codes "--scope" ∷ scope ∷ m.name ∷ [])) rest in
        (
          switching one ek typed,
          subst (λ a. (allow_global || is_project_run a) ≡ true) (ok-injective same)
              (scoped allow_global m.action scope (m.name ∷ []) fits),
        )
    | inr other ↦ elim (Bool-cases (text_eq m.action (codes "add"))) [
      | inl add ↦ add-IsGranted allow_global add ek (rw (other, add) at h)
      | inr none_of ↦ cc (rw (other, none_of) at h)
    ]
  ]

  pub mutation-IsGranted :
      (allow_global : Bool) {arguments : List Text}
      → mutation_arguments parse m allow_global ≡ ok arguments
      → IsGranted allow_global arguments
  unfolding mutation_arguments
  mutation-IsGranted allow_global h =
      let by_kind : Result CustomizationError (List Text) =
        if text_eq m.kind (codes "plugin")
        then plugin_arguments parse m
        else if text_eq m.kind (codes "mcp")
        then mcp_arguments parse m allow_global
        else err unsupported in
      let (named, valid, rest) =
        >>=-eq-ok (validate_name m.name)
          (λ _.
            refuse_if (text_eq m.kind (codes "plugin") && not allow_global) global_plugins
            >> by_kind)
          h in
      let (passed, global, last) =
        >>=-eq-ok (refuse_if (text_eq m.kind (codes "plugin") && not allow_global) global_plugins)
          (λ _. by_kind) rest in
      elim (Bool-cases (text_eq m.kind (codes "plugin"))) [
        | inl plugin ↦ (plugin-confirmed plugin (rw plugin at last), ground arith)
        | inr other ↦ elim (Bool-cases (text_eq m.kind (codes "mcp"))) [
          | inl mcp ↦ mcp-IsGranted allow_global mcp (rw (other, mcp) at last)
          | inr none_of ↦ cc (rw (other, none_of) at last)
        ]
      ]
