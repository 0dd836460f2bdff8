-- ===== src/Crypto/Sample.antt =====
-- Concrete primitives, which show that the assumptions on them can be met.
use leave_cli.Prelude.{ℕ, ◌≡◌, ◌↔◌, refl, true, some, [], ◌∷◌, length, ◌+◌}
use leave_cli.Prelude.Text.{text_eq, text_eq_iff}
use leave_cli.Crypto.Error.{Bytes}
use leave_cli.Crypto.Primitives.{Primitives}
use leave_cli.Crypto.Vault.{Cipher}

abbrev eight : ℕ → Bytes → Bytes
eight b r = b ∷ b ∷ b ∷ b ∷ b ∷ b ∷ b ∷ b ∷ r

-- A digest of 32 copies of one number, enough to tell short messages apart.
abbrev pub digest : ℕ → Bytes
digest b = eight b (eight b (eight b (eight b [])))

abbrev first : Bytes → ℕ
first [] = 0
first (b ∷ r) = b

pub comparison : (l r : Bytes) → length l ≡ length r → (text_eq l r ≡ true) ↔ (l ≡ r)
comparison l r e = text_eq_iff l r

abbrev pub sample : Primitives
sample = record {
  ct_eq = text_eq;
  ct_eq_iff = comparison;
  keyed_hash = λ key context message. digest (first key + first message);
  length-keyed_hash = λ key context message. refl;
  hash = λ message. digest (first message);
  length-hash = λ message. refl;
}

-- A cipher that only marks the text.
abbrev pub marking : Cipher
marking = record {
  encrypt = λ key nonce text. some text;
  decrypt = λ key nonce ciphertext. some ciphertext;
}
