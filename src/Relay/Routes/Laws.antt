-- ===== src/Relay/Routes/Laws.antt =====
-- Who may attach to a route.
use leave_cli.Prelude.{
  ℕ, ◌*◌, ◌/◌, ◌%◌, ◌<◌, ◌≡◌, ◌≢◌, ◌↔◌, refl, ap, ◌∙◌, true, Option, none, some, [], ◌∷◌, arith,
  if◌then◌else◌, is_some, length, All,
}
use leave_cli.Prelude.Text.{Text}
use leave_cli.Prelude.Maps.{
  lookup, lookup-insert_self, lookup-insert_ne, lookup-remove_self, lookup-remove_ne,
}
use leave_cli.Crypto.Error.{Bytes}
use leave_cli.Crypto.Primitives.{Primitives}
use leave_cli.Crypto.Vault.{subtle_eq}
use leave_cli.Crypto.Vault.Laws.{subtle_eq_iff}
use leave_cli.Relay.Routes.{
  Route, RouteTable, hex, hex_digit, hash_token, register, authorize, revoke,
}

abbrev pub IsByte : ℕ → Type 0
IsByte b = b < 256

hex_digit_injective : (a b : ℕ) → a < 16 → b < 16 → hex_digit a ≡ hex_digit b → a ≡ b
hex_digit_injective a b ha hb h = ground arith

hex-byte_injective :
    (a b : ℕ)
    → IsByte a
    → IsByte b
    → hex_digit (a / 16) ≡ hex_digit (b / 16)
    → hex_digit (a % 16) ≡ hex_digit (b % 16)
    → a ≡ b
hex-byte_injective a b ha hb high low = omega (
  arith,
  hex_digit_injective (a / 16) (b / 16) (omega arith) (omega arith) high,
  hex_digit_injective (a % 16) (b % 16) (omega arith) (omega arith) low,
)

abbrev head_of : Text → ℕ
head_of [] = 0
head_of (b ∷ s) = b

abbrev tail_of : Text → Text
tail_of [] = []
tail_of (b ∷ s) = s

-- Different keys give different tokens, and a token has two characters for each byte of its key.
pub hex_injective : (k l : Bytes) → All IsByte k → All IsByte l → hex k ≡ hex l → k ≡ l
unfolding hex
hex_injective [] [] hk hl e = refl
hex_injective [] (b ∷ l) hk hl e = cc
hex_injective (a ∷ k) [] hk hl e = cc
hex_injective (a ∷ k) (b ∷ l) (ha, hk) (hb, hl) e =
    let same = hex-byte_injective a b ha hb (ap head_of e) (ap (λ t. head_of (tail_of t)) e) in
    let rest = hex_injective k l hk hl (ap (λ t. tail_of (tail_of t)) e) in cc (same, rest)

pub length-hex : (k : Bytes) → length (hex k) ≡ 2 * length k
unfolding hex
length-hex [] = omega arith
length-hex (b ∷ k) = omega (arith, length-hex k)

-- What `authorize` makes of the entry that it finds.
abbrev check : Primitives → Text → Option Route → Option Route
check p token found = elim found [
  | none ↦ none
  | some route ↦ if subtle_eq p route.token_hash (hash_token p token) then some route else none
]

check_iff :
    (p : Primitives) (token : Text) (found : Option Route) (route : Route)
    → (check p token found ≡ some route)
      ↔ ((found ≡ some route) × (route.token_hash ≡ hash_token p token))
check_iff p token none route = (λ h. cc, λ h. cc (h.0))
check_iff p token (some r) route = ground (arith, subtle_eq_iff p r.token_hash (hash_token p token))

check_self :
    (p : Primitives) (token : Text)
    → check p token (some (record { token_hash = hash_token p token }))
      ≡ some (record { token_hash = hash_token p token })
check_self p token = (check_iff p token _ _).1 (refl, refl)

check_other :
    (p : Primitives) (token : Text) (h : Bytes)
    → hash_token p token ≢ h
    → check p token (some (record { token_hash = h })) ≡ none
check_other p token h differ = ground (arith, subtle_eq_iff p h (hash_token p token))

module _ (p : Primitives) (table : RouteTable) where
  -- A route accepts a token exactly when it is registered and holds that token's hash.
  pub authorize_iff :
      (route_id token : Text) (route : Route)
      → (authorize p table route_id token ≡ some route)
        ↔ ((lookup route_id table ≡ some route) × (route.token_hash ≡ hash_token p token))
  unfolding authorize
  authorize_iff route_id token route = check_iff p token (lookup route_id table) route

  -- Registering: the new route accepts its own token, it accepts only tokens of the same hash, and
  -- what every other route accepts stays as it was.
  pub authorize-register :
      (route_id : Text) (key : Bytes)
      → let (made, after) = register p route_id key table in
        (is_some (authorize p after made.route_id made.token) ≡ true)
        × ((token : Text)
            → hash_token p token ≢ hash_token p made.token
            → authorize p after made.route_id token ≡ none)
        × ((other token : Text)
            → other ≢ made.route_id
            → authorize p after other token ≡ authorize p table other token)
  unfolding authorize register
  authorize-register route_id key = (
    ap (λ o. is_some (check p (hex key) o)) (lookup-insert_self route_id _ table)
        ∙ ap is_some (check_self p (hex key)),
    λ token differ.
        ap (check p token) (lookup-insert_self route_id _ table) ∙ check_other p token _ differ,
    λ other token differ. ap (check p token) (lookup-insert_ne route_id other _ table differ),
  )

  -- Revoking: the route accepts no token any more, the answer says whether it was registered, and
  -- what every other route accepts stays as it was.
  pub authorize-revoke :
      (route_id : Text)
      → let (was, after) = revoke route_id table in
        (was ≡ is_some (lookup route_id table))
        × ((token : Text) → authorize p after route_id token ≡ none)
        × ((other token : Text)
            → other ≢ route_id
            → authorize p after other token ≡ authorize p table other token)
  unfolding authorize revoke
  authorize-revoke route_id = (
    refl,
    λ token. ap (check p token) (lookup-remove_self route_id table),
    λ other token differ. ap (check p token) (lookup-remove_ne route_id other table differ),
  )
