-- ===== src/Crypto/Pairing/Tests.antt =====
-- The theorems at concrete inputs.
use leave_cli.Prelude.{ℕ, ◌≡◌, ◌⊎◌, [], ◌∷◌, ok, err, arith}
use leave_cli.Crypto.Error.{Bytes, CryptoError}
use leave_cli.Crypto.Sample.{sample, digest}
use leave_cli.Crypto.Pairing.{
  Invitation, AddDevice, pairing_request, admitted_package, accept_pairing,
}
use leave_cli.Crypto.Pairing.Frames.{admitted_package-pairing_request}
use leave_cli.Crypto.Pairing.Admission.{IsRequest, accept_pairing_lem}

-- A group that counts its members, and invites with their key packages.
abbrev counting : AddDevice ℕ
counting members offered = (ok (record { commit = []; welcome = offered }), members)

abbrev invitation : Invitation
invitation = record { commit = []; welcome = 4 ∷ 2 ∷ [] }

admitted_package-pairing_request_example :
    admitted_package sample (pairing_request sample (4 ∷ 2 ∷ []) (digest 1)) (digest 1)
    ≡ ok (4 ∷ 2 ∷ [])
admitted_package-pairing_request_example =
    admitted_package-pairing_request sample (4 ∷ 2 ∷ []) (digest 1) (omega arith)

abbrev forged : Bytes
forged = pairing_request sample (4 ∷ []) (digest 2)

accept_pairing_lem_example :
    ((e : CryptoError) × (accept_pairing sample counting 1 forged (digest 1) ≡ (err e, 1)))
    ⊎ ((offered : Bytes) × IsRequest sample forged (digest 1) offered
        × (accept_pairing sample counting 1 forged (digest 1) ≡ counting 1 offered))
accept_pairing_lem_example = accept_pairing_lem sample counting 1 forged (digest 1)
