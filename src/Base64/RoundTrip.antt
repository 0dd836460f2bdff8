-- ===== src/Base64/RoundTrip.antt =====
-- Decoding gives back what was encoded.
use leave_cli.Prelude.{ℕ, ◌≡◌, sym, ap, ◌∙◌, List, [], ◌∷◌, ◌++◌, arith, ok, All}
use mathlib.Core.List.{append-nil, append_assoc}
use leave_cli.Base64.{serialize, decode_loop, deserialize}
use leave_cli.Base64.Steps.{IsByte, decode_chunk_1, decode_chunk_2, decode_chunk_3}

-- From any accumulator without pending bits, the loop appends the encoded bytes.
decode_loop-serialize :
    (bytes : List ℕ) (a : ℕ) (out : List ℕ)
    → All IsByte bytes
    → decode_loop (serialize bytes) a 0 out ≡ ok (out ++ bytes)
unfolding serialize decode_loop
decode_loop-serialize [] a out h = ap ok (sym (append-nil out))
decode_loop-serialize (b0 ∷ []) a out (h0, h) =
    decode_chunk_1 b0 0 0 a out h0 (omega arith) (omega arith) ∙ simp append-nil
decode_loop-serialize (b0 ∷ b1 ∷ []) a out (h0, (h1, h)) =
    decode_chunk_2 b0 b1 0 a out h0 h1 (omega arith) ∙ simp (append-nil, append_assoc)
decode_loop-serialize (b0 ∷ b1 ∷ b2 ∷ rest) a out (h0, (h1, (h2, h))) =
    decode_chunk_3 b0 b1 b2 a out h0 h1 h2 (serialize rest)
    ∙ decode_loop-serialize rest _ _ h
    ∙ simp (append-nil, append_assoc)

-- Every sequence of bytes survives the encoding, whatever its length and content.
pub deserialize-serialize :
    (bytes : List ℕ) → All IsByte bytes → deserialize (serialize bytes) ≡ ok bytes
unfolding deserialize
deserialize-serialize bytes h = decode_loop-serialize bytes 0 [] h
