-- ===== src/Base64.antt =====
-- crates/leave-protocol/src/tunnel.rs: `serde_bytes_vec`, the base64 of request and response
-- bodies. A character is its byte; a `u32` keeps its wrap-around.
mod Alphabet
pub mod Steps
pub mod RoundTrip
mod Tests
use Prim.Native.Nat.{bit_and, bit_or}
use leave_cli.Prelude.{
  ℕ, zero, suc, ◌+◌, ◌-◌, ◌*◌, ◌/◌, ◌%◌, ◌^◌, Bool, Option, none, some, List, [], ◌∷◌, ◌++◌, leb,
  ◌==◌, if◌then◌else◌, Result, ok, err,
}
use leave_cli.Prelude.Text.{Text, codes}

unfoldable pub alphabet : Text
unfolding codes
alphabet = codes "ABCDEFGHIJKLMNOPQRSTUVWXYZabcdefghijklmnopqrstuvwxyz0123456789+/"

-- `ALPHABET[position]`; positions are below 64 where it is used.
unfoldable pub at : Text → ℕ → ℕ
at [] i = 0
at (c ∷ cs) zero = c
at (c ∷ cs) (suc i) = at cs i

-- `iter().position(|entry| *entry == character)`.
unfoldable pub position_from : ℕ → ℕ → Text → Option ℕ
position_from i c [] = none
position_from i c (e ∷ es) = if e == c then some i else position_from (i + 1) c es

unfoldable pub position : ℕ → Option ℕ
unfolding position_from
position c = position_from 0 c alphabet

abbrev shl32 : ℕ → ℕ → ℕ
shl32 x k = x * 2 ^ k % 2 ^ 32

-- The three buffered bytes as one number.
unfoldable pub packed : ℕ → ℕ → ℕ → ℕ
packed b0 b1 b2 = bit_or (bit_or (shl32 b0 16) (shl32 b1 8)) b2

-- `ALPHABET[((value >> shift) & 0b0011_1111) as usize]`.
unfoldable pub symbol : ℕ → ℕ → ℕ
symbol value shift = at alphabet (bit_and (value / 2 ^ shift) 63)

-- The inner loop over `index in 0..4` for a chunk of `len` bytes.
unfoldable pub encode_at : ℕ → ℕ → ℕ → ℕ
encode_at len value index = if leb index len then symbol value (18 - index * 6) else b'='

unfoldable pub encode_chunk : ℕ → ℕ → Text
encode_chunk len value =
    encode_at len value 0
    ∷ encode_at len value 1
    ∷ encode_at len value 2
    ∷ encode_at len value 3
    ∷ []

-- `serialize`: the loop over `bytes.chunks(3)`.
unfoldable pub serialize : List ℕ → Text
serialize [] = []
serialize (b0 ∷ []) = encode_chunk 1 (packed b0 0 0)
serialize (b0 ∷ b1 ∷ []) = encode_chunk 2 (packed b0 b1 0)
serialize (b0 ∷ b1 ∷ b2 ∷ rest) = encode_chunk 3 (packed b0 b1 b2) ++ serialize rest

pub data Base64Error : Type 0 where
  invalid_base64 : Base64Error

-- What one character adds: the new accumulator and bit count, and the byte that is complete.
unfoldable pub take_bits : ℕ → ℕ → ℕ → ℕ × ℕ × List ℕ
take_bits accumulator bits position =
    let acc = bit_or (shl32 accumulator 6) position in
    if leb 8 (bits + 6)
    then (acc, bits + 6 - 8, bit_and (acc / 2 ^ (bits + 6 - 8)) 255 ∷ [])
    else (acc, bits + 6, [])

-- `deserialize`: the loop over `text.bytes()`, with what it has decoded so far.
unfoldable pub decode_loop : Text → ℕ → ℕ → List ℕ → Result Base64Error (List ℕ)
decode_loop [] acc bits decoded = ok decoded
decode_loop (c ∷ text) acc bits decoded =
    let rest = λ (p : ℕ).
      decode_loop text (take_bits acc bits p).0 (take_bits acc bits p).1
        (decoded ++ (take_bits acc bits p).2) in
    if c == b'='
    then ok decoded
    else elim (position c) [ none ↦ err invalid_base64 | some p ↦ rest p ]

unfoldable pub deserialize : Text → Result Base64Error (List ℕ)
deserialize text = decode_loop text 0 0 []
