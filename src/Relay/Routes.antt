-- ===== src/Relay/Routes.antt =====
-- apps/relay/src/routes.rs: registered routes and the tokens that authorize attaching to them. The
-- fanout channel of a route is in Relay.Socket; the route's entry here is its token's hash.
pub mod Laws
mod Tests
use leave_cli.Prelude.{
  ℕ, ◌+◌, ◌-◌, ◌/◌, ◌%◌, Bool, true, false, Option, none, some, List, [], ◌∷◌, ltb, if◌then◌else◌,
  is_some,
}
use leave_cli.Prelude.Text.{Text}
use leave_cli.Prelude.Maps.{Assoc, lookup, insert, remove}
use leave_cli.Crypto.Error.{Bytes}
use leave_cli.Crypto.Primitives.{Primitives}
use leave_cli.Crypto.Vault.{subtle_eq}

pub record Route : Type 0 where
  pub token_hash : Bytes

-- `HashMap<String, Route>`.
abbrev pub RouteTable : Type 0
RouteTable = Assoc Route

pub record RegisteredRoute : Type 0 where
  pub route_id : Text
  pub token : Text

abbrev hex_digit : ℕ → ℕ
hex_digit n = if ltb n 10 then n + b'0' else n - 10 + b'a'

-- `write!(text, "{byte:02x}")` for each byte.
unfoldable pub hex : Bytes → Text
hex [] = []
hex (b ∷ bs) = hex_digit (b / 16) ∷ hex_digit (b % 16) ∷ hex bs

-- `hash_token`: blake3 of the token's bytes.
abbrev pub hash_token : Primitives → Text → Bytes
hash_token p token = p.hash token

-- `RouteTable::register`, at the identifier and the 32 random bytes that were drawn.
unfoldable pub register : Primitives → Text → Bytes → RouteTable → RegisteredRoute × RouteTable
register p route_id key table =
    let token = hex key in
    (
      record { route_id = route_id; token = token },
      insert route_id (record { token_hash = hash_token p token }) table,
    )

-- `RouteTable::authorize`.
unfoldable pub authorize : Primitives → RouteTable → Text → Text → Option Route
authorize p table route_id token = elim (lookup route_id table) [
  | none ↦ none
  | some route ↦ if subtle_eq p route.token_hash (hash_token p token) then some route else none
]

-- `RouteTable::revoke`.
unfoldable pub revoke : Text → RouteTable → Bool × RouteTable
revoke route_id table = (is_some (lookup route_id table), remove route_id table)
