-- ===== src/Store/Claims.antt =====
-- Commands that arrive more than once.
use leave_cli.Prelude.{
  inl, inr, ◌⊎◌, ℕ, suc, ◌≡◌, refl, ap, ◌∙◌, Bool, true, false, List, [], ◌∷◌, any, arith,
  Bool-cases, if◌then◌else◌,
}
use leave_cli.Prelude.Text.{Text, text_eq, text_eq_iff}
use leave_cli.Store.{Tables, CommandClaim, new, duplicate, claim_command}

abbrev pub is_claimed : Text → Tables → Bool
is_claimed id t = any (λ c. text_eq c id) t.claims

-- One answer, and how often the command is performed for the later deliveries.
abbrev tally : Bool → CommandClaim → ℕ → ℕ
tally mine duplicate rest = rest
tally mine new rest = if mine then suc rest else rest

-- How often a command is performed: the deliveries of it that are answered by `new`.
abbrev pub performed : Text → List Text → Tables → ℕ
performed id [] t = 0
performed id (x ∷ xs) t =
    let (answer, after) = claim_command x t in tally (text_eq x id) answer (performed id xs after)

-- Equal identifiers are claimed alike.
same : (x id : Text) (t : Tables) → text_eq x id ≡ true → is_claimed x t ≡ is_claimed id t
same x id t h = ap (λ y. is_claimed y t) ((text_eq_iff x id).0 h)

abbrev pub claimed_by : Text → Tables → Tables
claimed_by id t = record {
  workspaces = t.workspaces;
  claims = id ∷ t.claims;
  last_sequence = t.last_sequence;
  events = t.events;
  sessions = t.sessions;
}

-- A command that is claimed stays so, and any other is claimed now.
pub claim_command_lem :
    (id : Text) (t : Tables)
    → ((is_claimed id t ≡ true) × (claim_command id t ≡ (duplicate, t)))
      ⊎ ((is_claimed id t ≡ false) × (claim_command id t ≡ (new, claimed_by id t)))
unfolding claim_command
claim_command_lem id t = elim (Bool-cases (is_claimed id t)) [
  | inl before ↦ inl (before, rw before refl)
  | inr fresh ↦ inr (fresh, rw fresh refl)
]

-- However often and in whatever order commands are delivered, one that was delivered at all is
-- performed exactly once, unless it had been claimed before; then it is not performed again.
pub performed_once :
    (id : Text) (deliveries : List Text) (t : Tables)
    → performed id deliveries t
      ≡ (if is_claimed id t then 0 else if any (λ x. text_eq x id) deliveries then 1 else 0)
performed_once id [] t = ground arith
performed_once id (x ∷ xs) t = elim (claim_command_lem x t) [
  | inl (before, repeated) ↦
      ap (λ r. tally (text_eq x id) r.0 (performed id xs r.1)) repeated
      ∙ performed_once id xs t
      ∙ ground (arith, same x id t)
  | inr (fresh, first) ↦
      ap (λ r. tally (text_eq x id) r.0 (performed id xs r.1)) first
      ∙ ap (λ n. if text_eq x id then suc n else n) (performed_once id xs (claimed_by x t))
      ∙ ground (arith, same x id t)
]
