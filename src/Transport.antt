-- ===== src/Transport.antt =====
-- crates/leave-transport/src/lib.rs: the host's connection to the relay. The protobuf codec, the
-- WebSocket and the fresh identifiers are parameters.
pub mod Delivery
mod Tests
use leave_cli.Prelude.{
  ℕ, Bool, true, false, not, Option, none, some, List, [], ◌∷◌, ◌++◌, Result, ok, err, ok_or,
  refuse_if, ◌>>=◌, ◌>>◌, ltb, ◌==◌, length, if◌then◌else◌,
}
use mathlib.Core.List.{reverse}
use leave_cli.Prelude.Text.{Text, codes, text_eq, is_empty, starts_with}
use leave_cli.Crypto.Error.{Bytes}
use leave_cli.Envelope.{RelayEnvelope, protocol_version, max_ciphertext_bytes}

pub data TransportError : Type 0 where
  bad_address bad_token not_attached empty_frame oversized_frame not_published : TransportError
  connection_failed unparsed unexpected_text not_closed : TransportError
  closed_by_relay : Text → TransportError

-- prost: `encode_to_vec` and `decode` of `RelayEnvelope`.
pub record EnvelopeCodec : Type 0 where
  pub encode : RelayEnvelope → Bytes
  pub decode : Bytes → Option RelayEnvelope

-- What the socket yields. A close frame has its code and its reason.
pub data RelayMessage : Type 0 where
  binary : Bytes → RelayMessage
  closing : Option (ℕ × Text) → RelayMessage
  text_frame ping pong raw_frame : RelayMessage
  failed_message : RelayMessage

-- `trim_end_matches('/')`.
abbrev without_slashes : Text → Text
without_slashes [] = []
without_slashes (b ∷ s) = if b == b'/' then without_slashes s else b ∷ s

-- `replace("http", "ws")`: every occurrence, from the left.
abbrev to_ws : Text → Text
to_ws (a ∷ b ∷ c ∷ d ∷ s) =
    let skipped = to_ws s in
    let kept = to_ws (b ∷ c ∷ d ∷ s) in
    if text_eq (a ∷ b ∷ c ∷ d ∷ []) (codes "http") then codes "ws" ++ skipped else a ∷ kept
to_ws s = s

-- The address that `attach` connects to.
unfoldable pub endpoint : Text → Text → Text
endpoint relay_url route_id =
    to_ws (reverse (without_slashes (reverse relay_url))) ++ codes "/api/v1/ws/" ++ route_id

-- `attach`: `valid_url` and `valid_header` say what the URL and the header parsers accept; the
-- connection is made to the endpoint, with the token.
unfoldable pub attach :
    (Text → Bool)
    → (Text → Bool)
    → (Text → Text → Bool)
    → Text
    → Text
    → Text
    → Result TransportError Text
attach valid_url valid_header connects relay_url route_id token = do
  refuse_if (not (valid_url (endpoint relay_url route_id))) bad_address
  refuse_if (not (valid_header token)) bad_token
  refuse_if (not (connects (endpoint relay_url route_id) token)) not_attached
  ok route_id

module _ (codec : EnvelopeCodec) (route_id : Text) where
  abbrev pub envelope_of : Text → Bytes → RelayEnvelope
  envelope_of message_id ciphertext = record {
    version = protocol_version;
    route_id = route_id;
    message_id = message_id;
    ciphertext = ciphertext;
  }

  -- `send`: the frame that is published; `published` says whether the socket took it.
  unfoldable pub send : Text → Bool → Bytes → Result TransportError Bytes
  send message_id published ciphertext = do
    refuse_if (is_empty ciphertext) empty_frame
    refuse_if (ltb max_ciphertext_bytes (length ciphertext)) oversized_frame
    refuse_if (not published) not_published
    ok (codec.encode (envelope_of message_id ciphertext))

  -- 1000 is `CloseCode::Normal`.
  abbrev closed_with : Option (ℕ × Text) → Result TransportError (Option Bytes)
  closed_with none = ok none
  closed_with (some (code, reason)) =
      if not (code == 1000) then err (closed_by_relay reason) else ok none

  -- `recv`: the ciphertext, and what the socket has left; the end of the messages is its end.
  unfoldable pub recv : List RelayMessage → Result TransportError (Option Bytes) × List RelayMessage
  recv [] = (ok none, [])
  recv (failed_message ∷ rest) = (err connection_failed, rest)
  recv (closing frame ∷ rest) = (closed_with frame, rest)
  recv (text_frame ∷ rest) = (err unexpected_text, rest)
  recv (ping ∷ rest) = recv rest
  recv (pong ∷ rest) = recv rest
  recv (raw_frame ∷ rest) = recv rest
  recv (binary frame ∷ rest) = elim (codec.decode frame) [
    | none ↦ (err unparsed, rest)
    | some e ↦ elim (text_eq e.route_id route_id) [
      | true ↦ (ok (some e.ciphertext), rest)
      | false ↦ recv rest
    ]
  ]
