-- ===== src/Base64/Steps.antt =====
-- One encoded chunk at a time through the decoding loop.
use Prim.Native.Nat.{bit_or}
use leave_cli.Prelude.{
  ℕ, ◌+◌, ◌*◌, ◌/◌, ◌%◌, ◌^◌, ◌<◌, ◌≡◌, refl, ap, ◌∙◌, List, [], ◌∷◌, ◌++◌, arith, ok,
}
use leave_cli.Prelude.Text.{Text}
use leave_cli.Prelude.Bits.{bit_or-shifted, bit_and-63, bit_and-255}
use leave_cli.Base64.{alphabet, at, packed, symbol, encode_at, encode_chunk, take_bits, decode_loop}
use leave_cli.Base64.Alphabet.{at-ne-padding, position-at}

abbrev pub IsByte : ℕ → Type 0
IsByte b = b < 256

-- The accumulator after one more character.
abbrev mix : ℕ → ℕ → ℕ
mix a p = a * 64 % 4294967296 + p

or_mix : (a p : ℕ) → p < 64 → bit_or (a * 2 ^ 6 % 2 ^ 32) p ≡ mix a p
or_mix a p h =
    let whole : a * 2 ^ 6 % 2 ^ 32 ≡ a % 67108864 * 2 ^ 6 = omega arith in
    rw whole (bit_or-shifted 6 (a % 67108864) p (omega arith) ∙ omega arith)

module _ (a p : ℕ) (h : p < 64) where
  take_bits_0 : take_bits a 0 p ≡ (mix a p, 6, [])
  unfolding take_bits
  take_bits_0 = rw (or_mix a p h)

  take_bits_6 : take_bits a 6 p ≡ (mix a p, 4, (mix a p / 16 % 256) ∷ [])
  unfolding take_bits
  take_bits_6 = rw (or_mix a p h) (rw bit_and-255 refl)

  take_bits_4 : take_bits a 4 p ≡ (mix a p, 2, (mix a p / 4 % 256) ∷ [])
  unfolding take_bits
  take_bits_4 = rw (or_mix a p h) (rw bit_and-255 refl)

  take_bits_2 : take_bits a 2 p ≡ (mix a p, 0, (mix a p / 1 % 256) ∷ [])
  unfolding take_bits
  take_bits_2 = rw (or_mix a p h) (rw bit_and-255 refl)

decode_loop-at :
    (p : ℕ) (text : Text) (a bits : ℕ) (out : List ℕ)
    → p < 64
    → decode_loop (at alphabet p ∷ text) a bits out
      ≡ decode_loop text
          (take_bits a bits p).0
          (take_bits a bits p).1
          (out ++ (take_bits a bits p).2)
unfolding decode_loop
decode_loop-at p text a bits out h = rw (at-ne-padding p h, position-at p h)

packed_sum :
    (b0 b1 b2 : ℕ) → b0 < 256 → b1 < 256 → b2 < 256 → packed b0 b1 b2 ≡ b0 * 65536 + b1 * 256 + b2
unfolding packed
packed_sum b0 b1 b2 h0 h1 h2 =
    let high : b0 * 2 ^ 16 % 2 ^ 32 ≡ b0 * 2 ^ 16 = omega arith in
    let low : b1 * 2 ^ 8 % 2 ^ 32 ≡ b1 * 2 ^ 8 = omega arith in
    let top : b0 * 2 ^ 16 + b1 * 2 ^ 8 ≡ (b0 * 256 + b1) * 2 ^ 8 = omega arith in
    rw (high, low, bit_or-shifted 16 b0 (b1 * 2 ^ 8) (omega arith), top)
      (bit_or-shifted 8 (b0 * 256 + b1) b2 (omega arith) ∙ omega arith)

symbol-at : (v p shift : ℕ) → v / 2 ^ shift % 64 ≡ p → symbol v shift ≡ at alphabet p
unfolding symbol
symbol-at v p shift e = ap (at alphabet) (bit_and-63 (v / 2 ^ shift) ∙ e)

-- Two characters from a state with no pending bits, and the third and the fourth after them.
module _ (p q : ℕ) (hp : p < 64) (hq : q < 64) (text : Text) (a : ℕ) (out : List ℕ) where
  decode_two :
      decode_loop (at alphabet p ∷ at alphabet q ∷ text) a 0 out
      ≡ decode_loop text (mix (mix a p) q) 4 ((out ++ []) ++ (mix (mix a p) q / 16 % 256) ∷ [])
  decode_two = rw (decode_loop-at p (at alphabet q ∷ text) a 0 out hp) (
      rw (take_bits_0 a p hp)
        (rw (decode_loop-at q text (mix a p) 6 (out ++ []) hq) (rw (take_bits_6 (mix a p) q hq))))

module _ (p : ℕ) (h : p < 64) (text : Text) (a : ℕ) (out : List ℕ) where
  decode_third :
      decode_loop (at alphabet p ∷ text) a 4 out
      ≡ decode_loop text (mix a p) 2 (out ++ (mix a p / 4 % 256) ∷ [])
  decode_third = rw (decode_loop-at p text a 4 out h) (rw (take_bits_4 a p h))

  decode_fourth :
      decode_loop (at alphabet p ∷ text) a 2 out
      ≡ decode_loop text (mix a p) 0 (out ++ (mix a p / 1 % 256) ∷ [])
  decode_fourth = rw (decode_loop-at p text a 2 out h) (rw (take_bits_2 a p h))

-- The three bytes that four six-bit fields hold.
module _ (a b0 b1 b2 : ℕ) (h0 : b0 < 256) (h1 : b1 < 256) (h2 : b2 < 256) where
  abbrev q0 : ℕ
  q0 = b0 / 4

  abbrev q1 : ℕ
  q1 = b0 % 4 * 16 + b1 / 16

  abbrev q2 : ℕ
  q2 = b1 % 16 * 4 + b2 / 64

  abbrev q3 : ℕ
  q3 = b2 % 64

  first_byte : mix (mix a q0) q1 / 16 % 256 ≡ b0
  first_byte = omega arith

  second_byte : mix (mix (mix a q0) q1) q2 / 4 % 256 ≡ b1
  second_byte = omega arith

  third_byte : mix (mix (mix (mix a q0) q1) q2) q3 / 1 % 256 ≡ b2
  third_byte = omega arith

  symbols :
      (v : ℕ)
      → v ≡ b0 * 65536 + b1 * 256 + b2
      → (symbol v 18 ≡ at alphabet q0)
        × (symbol v 12 ≡ at alphabet q1)
        × (symbol v 6 ≡ at alphabet q2)
        × (symbol v 0 ≡ at alphabet q3)
  symbols v e = (
    symbol-at v q0 18 (omega arith),
    symbol-at v q1 12 (omega arith),
    symbol-at v q2 6 (omega arith),
    symbol-at v q3 0 (omega arith),
  )

decode_padding :
    (text : Text) (a bits : ℕ) (out : List ℕ) → decode_loop (b'=' ∷ text) a bits out ≡ ok out
unfolding decode_loop
decode_padding text a bits out = refl

-- The state after a chunk: the accumulator is what is left of it.
module _ (b0 b1 b2 a : ℕ) (out : List ℕ) (h0 : b0 < 256) (h1 : b1 < 256) (h2 : b2 < 256) where
  abbrev one : ℕ
  one = mix (mix a (b0 / 4)) (b0 % 4 * 16 + b1 / 16)

  abbrev two : ℕ
  two = mix one (b1 % 16 * 4 + b2 / 64)

  abbrev three : ℕ
  three = mix two (b2 % 64)

  decode_first :
      (text : Text)
      → decode_loop (at alphabet (b0 / 4) ∷ at alphabet (b0 % 4 * 16 + b1 / 16) ∷ text) a 0 out
        ≡ decode_loop text one 4 ((out ++ []) ++ b0 ∷ [])
  decode_first text =
      decode_two (b0 / 4) (b0 % 4 * 16 + b1 / 16) (omega arith) (omega arith) text a out
      ∙ rw (first_byte a b0 b1 b2 h0 h1 h2)

  decode_second :
      (text : Text) (sofar : List ℕ)
      → decode_loop (at alphabet (b1 % 16 * 4 + b2 / 64) ∷ text) one 4 sofar
        ≡ decode_loop text two 2 (sofar ++ b1 ∷ [])
  decode_second text sofar =
      decode_third (b1 % 16 * 4 + b2 / 64) (omega arith) text one sofar
      ∙ rw (second_byte a b0 b1 b2 h0 h1 h2)

  decode_last :
      (text : Text) (sofar : List ℕ)
      → decode_loop (at alphabet (b2 % 64) ∷ text) two 2 sofar
        ≡ decode_loop text three 0 (sofar ++ b2 ∷ [])
  decode_last text sofar =
      decode_fourth (b2 % 64) (omega arith) text two sofar ∙ rw (third_byte a b0 b1 b2 h0 h1 h2)

  abbrev fields :
      (symbol (packed b0 b1 b2) 18 ≡ at alphabet (b0 / 4))
      × (symbol (packed b0 b1 b2) 12 ≡ at alphabet (b0 % 4 * 16 + b1 / 16))
      × (symbol (packed b0 b1 b2) 6 ≡ at alphabet (b1 % 16 * 4 + b2 / 64))
      × (symbol (packed b0 b1 b2) 0 ≡ at alphabet (b2 % 64))
  fields = symbols a b0 b1 b2 h0 h1 h2 (packed b0 b1 b2) (packed_sum b0 b1 b2 h0 h1 h2)

  pub decode_chunk_1 :
      decode_loop (encode_chunk 1 (packed b0 b1 b2)) a 0 out ≡ ok ((out ++ []) ++ b0 ∷ [])
  unfolding encode_chunk encode_at
  decode_chunk_1 =
      rw (fields.0, fields.1)
        (decode_first (b'=' ∷ b'=' ∷ [])
          ∙ decode_padding (b'=' ∷ []) one 4 ((out ++ []) ++ b0 ∷ []))

  pub decode_chunk_2 :
      decode_loop (encode_chunk 2 (packed b0 b1 b2)) a 0 out
      ≡ ok (((out ++ []) ++ b0 ∷ []) ++ b1 ∷ [])
  unfolding encode_chunk encode_at
  decode_chunk_2 =
      let sofar = (out ++ []) ++ b0 ∷ [] in
      rw (fields.0, fields.1, fields.2)
        (decode_first (at alphabet (b1 % 16 * 4 + b2 / 64) ∷ b'=' ∷ [])
          ∙ decode_second (b'=' ∷ []) sofar
          ∙ decode_padding [] two 2 (sofar ++ b1 ∷ []))

  pub decode_chunk_3 :
      (text : Text)
      → decode_loop (encode_chunk 3 (packed b0 b1 b2) ++ text) a 0 out
        ≡ decode_loop text three 0 ((((out ++ []) ++ b0 ∷ []) ++ b1 ∷ []) ++ b2 ∷ [])
  unfolding encode_chunk encode_at
  decode_chunk_3 text =
      let sofar = (out ++ []) ++ b0 ∷ [] in
      rw (fields.0, fields.1, fields.2, fields.3)
        (decode_first (at alphabet (b1 % 16 * 4 + b2 / 64) ∷ at alphabet (b2 % 64) ∷ text)
          ∙ decode_second (at alphabet (b2 % 64) ∷ text) sofar
          ∙ decode_last text (sofar ++ b1 ∷ []))
