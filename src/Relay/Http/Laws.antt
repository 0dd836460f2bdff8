-- ===== src/Relay/Http/Laws.antt =====
-- What each handler requires, and what it changes.
use leave_cli.Prelude.{
  ◌≤◌, ◌≡◌, ◌≢◌, ◌↔◌, ◌⊎◌, inl, inr, refl, ap, Bool, true, false, Option, none, some, [], ◌∷◌,
  arith, some-injective, ltb, ◌||◌, if◌then◌else◌, length, is_some, Bool-cases, Option-cases, not,
}
use leave_cli.Prelude.Text.{Text, text_eq_iff, is_empty}
use leave_cli.Crypto.Error.{Bytes}
use leave_cli.Crypto.Primitives.{Primitives}
use leave_cli.Crypto.Vault.{subtle_eq}
use leave_cli.Crypto.Vault.Laws.{subtle_eq_iff}
use leave_cli.Prelude.Maps.{lookup}
use leave_cli.Relay.Routes.{Route, RouteTable, hash_token, register, authorize}
use leave_cli.Relay.Routes.Laws.{authorize_iff, authorize-revoke}
use leave_cli.Relay.Http.{
  Headers, presented_token, registered, no_content, unauthorized, upgrade, bad_request,
  origin_denied, not_upgradable, register_route, revoke_route, websocket, or_empty, foreign_origin,
}

is_some_iff : {A : Type 0} (o : Option A) → (is_some o ≡ true) ↔ ((a : A) × (o ≡ some a))
is_some_iff none = (λ h. cc, λ h. cc (h.1))
is_some_iff (some a) = (λ h. (a, refl), λ h. refl)

-- What the body requires besides a token that the table accepts.
upgrade_iff :
    (own : Bytes) (upgradable : Bool) (r : Text) (known : Bool) (origin : Option Bytes)
    → ((if not upgradable
          then not_upgradable
          else if is_empty r || ltb 128 (length r)
          then bad_request
          else if not known
          then unauthorized
          else if foreign_origin own origin
          then origin_denied
          else upgrade)
        ≡ upgrade)
      ↔ ((upgradable ≡ true)
          × (1 ≤ length r)
          × (length r ≤ 128)
          × (known ≡ true)
          × ((origin ≡ none) ⊎ (origin ≡ some own)))
upgrade_iff own false r known origin = (λ h. cc, λ h. cc (h.0))
upgrade_iff own true [] known origin = ground arith
upgrade_iff own true (a ∷ r) known none = ground arith
upgrade_iff own true (a ∷ r) known (some o) = ground (arith, text_eq_iff o own)

-- A socket is upgraded exactly when the request is one that axum can upgrade, the route identifier has
-- 1 to 128 bytes, the route is registered and holds the hash of the presented token, and an
-- `Origin`, if there is one, is the relay's own.
pub websocket-upgrade_iff :
    (p : Primitives) (own : Bytes) (table : RouteTable) (upgradable : Bool) (route_id : Text)
    (h : Headers)
    → (websocket p own table upgradable route_id h ≡ upgrade) ↔ (
        (upgradable ≡ true)
        × (1 ≤ length route_id)
        × (length route_id ≤ 128)
        × ((route : Route) × (lookup route_id table ≡ some route)
            × (route.token_hash ≡ hash_token p (presented_token h)))
        × ((h.origin ≡ none) ⊎ (h.origin ≡ some own)))
unfolding websocket
websocket-upgrade_iff p own table upgradable route_id h =
    let token = presented_token h in
    let accepted = authorize p table route_id token in
    let whole = upgrade_iff own upgradable route_id (is_some accepted) h.origin in
    (
      λ up.
          let (can, low, high, known, origin) = whole.0 up in
          let (route, found) = (is_some_iff accepted).0 known in
          let (there, held) = (authorize_iff p table route_id token route).0 found in
          (can, low, high, (route, there, held), origin),
      λ fits.
          let (can, low, high, (route, there, held), origin) = fits in
          let found = (authorize_iff p table route_id token route).1 (there, held) in
          whole.1 (can, low, high, (is_some_iff accepted).1 (route, found), origin),
    )

-- A registration succeeds exactly when a secret is configured and the header presents it (a
-- missing header presents the empty text); otherwise the table is unchanged.
pub register_route_lem :
    (p : Primitives) (secret : Option Text) (h : Headers) (route_id : Text) (key : Bytes)
    (table : RouteTable)
    → ((secret ≡ some (or_empty h.registration))
        × (register_route p secret h route_id key table
            ≡ (registered (register p route_id key table).0, (register p route_id key table).1)))
      ⊎ ((secret ≢ some (or_empty h.registration))
          × (register_route p secret h route_id key table ≡ (unauthorized, table)))
unfolding register_route
register_route_lem p none h route_id key table = inr (λ e. cc, refl)
register_route_lem p (some expected) h route_id key table =
    elim (Bool-cases (subtle_eq p expected (or_empty h.registration))) [
      | inl same ↦ inl (ap some ((subtle_eq_iff p _ _).0 same), rw same refl)
      | inr differ ↦ inr (
        λ e. cc (differ, (subtle_eq_iff p expected (or_empty h.registration)).1 (some-injective e)),
        rw differ refl,
      )
    ]

-- A route is revoked only for a caller whose token it accepts. Then no token is accepted on it any
-- more, whatever other requests did in between; any other caller changes nothing.
pub revoke_route_lem :
    (p : Primitives) (route_id : Text) (h : Headers) (between : RouteTable → RouteTable)
    (table : RouteTable)
    → let (reply, after) = revoke_route p route_id h between table in
      ((is_some (authorize p table route_id (presented_token h)) ≡ true)
        × (reply ≡ no_content)
        × ((token : Text) → authorize p after route_id token ≡ none))
      ⊎ ((authorize p table route_id (presented_token h) ≡ none)
          × (reply ≡ unauthorized)
          × (after ≡ table))
unfolding revoke_route
revoke_route_lem p route_id h between table =
    elim (Option-cases (authorize p table route_id (presented_token h))) [
      | inl unknown ↦ inr (unknown, rw unknown refl, rw unknown refl)
      | inr (route, known) ↦ inl (
        ap is_some known,
        rw known refl,
        λ token. rw known ((authorize-revoke p (between table) route_id).1 token),
      )
    ]
