-- ===== src/Crypto/Vault/Tests.antt =====
-- The theorems at concrete inputs.
use leave_cli.Prelude.{◌≡◌, ◌≤◌, ◌+◌, refl, [], ◌∷◌, ok, some, arith, length}
use leave_cli.Crypto.Error.{Bytes}
use leave_cli.Crypto.Sample.{marking, digest}
use leave_cli.Crypto.Codec.{put_bytes, put_header}
use leave_cli.Crypto.Vault.{seal_state, open_state}
use leave_cli.Crypto.Vault.Laws.{open_state-seal_state}

abbrev nonce : Bytes
nonce =
    1 ∷ 2 ∷ 3 ∷ 4 ∷ 5 ∷ 6 ∷ 7 ∷ 8 ∷ 9 ∷ 10 ∷ 11 ∷ 12 ∷ 13 ∷ 14 ∷ 15 ∷ 16 ∷ 17 ∷ 18 ∷ 19 ∷ 20 ∷ 21
    ∷ 22 ∷ 23 ∷ 24 ∷ []

marking_opens : (k n t c : Bytes) → marking.encrypt k n t ≡ some c → marking.decrypt k n c ≡ some t
marking_opens k n t c h = cc

marking_grows : (k n t c : Bytes) → marking.encrypt k n t ≡ some c → length c ≤ length t + 16
marking_grows k n t c h = ground arith

open_state-seal_state_example :
    open_state marking (digest 1) (put_bytes (put_bytes (put_header []) nonce) (7 ∷ []))
    ≡ ok (7 ∷ [])
unfolding seal_state
open_state-seal_state_example =
    open_state-seal_state marking (digest 1) nonce (7 ∷ []) marking_opens marking_grows refl
      (omega arith) refl
