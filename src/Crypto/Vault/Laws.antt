-- ===== src/Crypto/Vault/Laws.antt =====
-- Sealed state opens to what was sealed; the comparison is equality.
use mathlib.Core.List.{append_assoc, append-nil}
use leave_cli.Prelude.{
  ◌+◌, ◌≤◌, ◌≡◌, ◌↔◌, inl, inr, sym, ap, ◌∙◌, true, some, [], ◌++◌, arith, ok, length, ◌==◌, ==_iff,
  Bool-cases, ok_or, >>=-eq-ok,
}
use leave_cli.Crypto.Error.{Bytes, Checked}
use leave_cli.Crypto.Primitives.{Primitives}
use leave_cli.Crypto.Codec.{put_bytes, put_header, max_u32}
use leave_cli.Crypto.Codec.Laws.{
  take_bytes-put_bytes, put_bytes_behind, take_header-put_header, ok_or-eq-ok,
}
use leave_cli.Crypto.Vault.{Cipher, seal_state, open_state, subtle_eq}

-- The comparison is true exactly for equal byte strings, of whatever lengths.
pub subtle_eq_iff : (p : Primitives) (l r : Bytes) → (subtle_eq p l r ≡ true) ↔ (l ≡ r)
unfolding subtle_eq
subtle_eq_iff p l r = elim (Bool-cases (length l == length r)) [
  | inl same ↦ rw same (p.ct_eq_iff l r ((==_iff _ _).0 same))
  | inr differ ↦ (λ h. ground arith, λ e. ground (arith, ap (λ (t : Bytes). length t) e))
]

sealed_parts :
    (nonce c : Bytes)
    → put_header [] ++ (put_bytes [] nonce ++ (put_bytes [] c ++ []))
      ≡ put_bytes (put_bytes (put_header []) nonce) c
sealed_parts nonce c = sym (
    put_bytes_behind _ c
    ∙ ap (λ t. t ++ put_bytes [] c) (put_bytes_behind (put_header []) nonce)
    ∙ simp (append_assoc, append-nil))

ok-injective : {a b : Bytes} → ◌≡◌ {A = Checked Bytes} (ok a) (ok b) → a ≡ b
ok-injective h = cc

-- What a seal under a 24-byte nonce wrote, opens under the same key to the state that was sealed,
-- if the cipher opens what it encrypted and the ciphertext fits a 32-bit length.
pub open_state-seal_state :
    (cipher : Cipher) (key nonce state : Bytes) {sealed : Bytes}
    → ((k n t c : Bytes) → cipher.encrypt k n t ≡ some c → cipher.decrypt k n c ≡ some t)
    → ((k n t c : Bytes) → cipher.encrypt k n t ≡ some c → length c ≤ length t + 16)
    → length nonce ≡ 24
    → length state + 16 ≤ max_u32
    → seal_state cipher key nonce state ≡ ok sealed
    → open_state cipher key sealed ≡ ok state
unfolding seal_state open_state
open_state-seal_state cipher key nonce state {sealed} opens grows n24 fits h =
    let (c, got, made) = >>=-eq-ok (ok_or (cipher.encrypt key nonce state) _) _ h in
    let encrypted = ok_or-eq-ok _ _ got in
    let small = grows key nonce state c encrypted in
    let shape = sym (sealed_parts nonce c ∙ ok-injective made) in
    rw (shape, take_header-put_header)
      (rw (take_bytes-put_bytes nonce _ (omega arith), (==_iff _ _).1 n24)
        (rw (take_bytes-put_bytes c [] (omega arith), opens key nonce state c encrypted)))
