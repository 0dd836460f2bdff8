-- ===== src/LocalServer/Hosts.antt =====
-- apps/leave/src/local_server.rs: which Host headers `is_local_host` takes for this computer.
use leave_cli.Prelude.{
  ◌≡◌, ◌↔◌, ◌⊎◌, inl, inr, refl, sym, ap, ◌∙◌, Bool, true, false, ◌||◌, ◌++◌, arith,
}
use leave_cli.Prelude.Text.{
  Text, codes, text_eq, text_eq_iff, starts_with, starts_with-append, starts_with-eq-append,
}
use leave_cli.LocalServer.Access.{names_local}

pub or_iff : (a b : Bool) → ((a || b) ≡ true) ↔ ((a ≡ true) ⊎ (b ≡ true))
or_iff true b = (λ h. inl refl, λ h. refl)
or_iff false b = (λ h. inr h, λ h. ground arith)

-- A host is this name, or this name with a colon and anything behind it.
abbrev pub Names : Text → Text → Type 0
Names name host = (host ≡ name) ⊎ ((port : Text) × (host ≡ (name ++ codes ":") ++ port))

-- The three names that a computer gives itself.
abbrev pub IsHere : Text → Type 0
IsHere host =
    Names (codes "localhost") host ⊎ Names (codes "127.0.0.1") host ⊎ Names (codes "[::1]") host

Names-iff :
    (name host : Text)
    → ((text_eq host name || starts_with host (name ++ codes ":")) ≡ true) ↔ Names name host
Names-iff name host = (
  λ h. elim ((or_iff _ _).0 h) [
    | inl same ↦ inl ((text_eq_iff host name).0 same)
    | inr begins ↦ inr (starts_with-eq-append host (name ++ codes ":") begins)
  ],
  λ named. elim named [
    | inl same ↦ (or_iff _ _).1 (inl ((text_eq_iff host name).1 same))
    | inr (port, e) ↦ (or_iff _ _).1 (
        inr (
          ap (λ (t : Text). starts_with t (name ++ codes ":")) e
          ∙ starts_with-append (name ++ codes ":") port))
  ],
)

or_assoc : (a b c : Bool) → (a || b || c) ≡ (a || (b || c))
or_assoc true b c = refl
or_assoc false b c = refl

three_iff :
    {P Q R : Type 0} (a b c d e f : Bool)
    → ((a || b) ≡ true) ↔ P
    → ((c || d) ≡ true) ↔ Q
    → ((e || f) ≡ true) ↔ R
    → ((a || b || c || d || e || f) ≡ true) ↔ (P ⊎ Q ⊎ R)
three_iff a b c d e f p q r =
    let outer = or_iff (a || b || c || d) (e || f) in
    let inner = or_iff (a || b) (c || d) in
    let outside = or_assoc (a || b || c || d) e f in
    let inside = or_assoc (a || b) c d in
    (
      λ h. elim (outer.0 (sym outside ∙ h)) [
        | inr three ↦ inr (inr (r.0 three))
        | inl rest ↦ elim (inner.0 (sym inside ∙ rest)) [
          | inl one ↦ inl (p.0 one)
          | inr two ↦ inr (inl (q.0 two))
        ]
      ],
      λ here. elim here [
        | inl one ↦ outside ∙ outer.1 (inl (inside ∙ inner.1 (inl (p.1 one))))
        | inr (inl two) ↦ outside ∙ outer.1 (inl (inside ∙ inner.1 (inr (q.1 two))))
        | inr (inr three) ↦ outside ∙ outer.1 (inr (r.1 three))
      ],
    )

pub names_local_iff : (host : Text) → (names_local host ≡ true) ↔ IsHere host
unfolding codes
names_local_iff host =
    three_iff (text_eq host (codes "localhost")) (starts_with host (codes "localhost:"))
      (text_eq host (codes "127.0.0.1")) (starts_with host (codes "127.0.0.1:"))
      (text_eq host (codes "[::1]")) (starts_with host (codes "[::1]:"))
      (Names-iff (codes "localhost") host) (Names-iff (codes "127.0.0.1") host)
      (Names-iff (codes "[::1]") host)
