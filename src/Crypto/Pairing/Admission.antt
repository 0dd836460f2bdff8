-- ===== src/Crypto/Pairing/Admission.antt =====
-- Who gets in: nothing joins without the secret, and a refused request leaves the session alone.
use leave_cli.Prelude.{
  ℕ, ◌≡◌, ◌⊎◌, inl, inr, refl, ap, ◌∙◌, Bool, true, false, not, some, [], ◌∷◌, ◌++◌, ok, err, ok_or,
  refuse_if, ◌==◌, ==_iff, >>=-eq-ok,
}
use leave_cli.Crypto.Error.{Bytes, Checked, CryptoError}
use leave_cli.Crypto.Primitives.{Primitives}
use leave_cli.Crypto.Codec.{take_bytes, put_header, take_header}
use leave_cli.Crypto.Codec.Laws.{ok_or-eq-ok, take_header_iff}
use leave_cli.Crypto.Vault.{subtle_eq}
use leave_cli.Crypto.Vault.Laws.{subtle_eq_iff}
use leave_cli.Crypto.Pairing.{
  tag, AddDevice, admitted_package, accept_pairing, split_first, kind_request, admit,
}

-- The request is a header, the kind byte, a key package and, next, its tag under the secret.
pub record IsRequest (p : Primitives) (request secret offered : Bytes) : Type 0 where
  pub framed : Bytes
  pub behind_package : Bytes
  pub behind_tag : Bytes
  pub shape : request ≡ put_header [] ++ (1 ∷ framed)
  pub reads_package : take_bytes framed ≡ ok (offered, behind_package)
  pub reads_tag : take_bytes behind_package ≡ ok (tag p secret offered, behind_tag)

split_first-eq-some : (b : Bytes) {k : ℕ} {r : Bytes} → split_first b ≡ some (k, r) → b ≡ k ∷ r
split_first-eq-some [] h = cc
split_first-eq-some (x ∷ b) h = cc

refuse_if-eq-ok :
    {E : Type 0} (b : Bool) (e : E) {u : Unit {0}} → refuse_if (not b) e ≡ ok u → b ≡ true
refuse_if-eq-ok true e h = refl
refuse_if-eq-ok false e h = cc

assemble :
    (p : Primitives) (request secret offered behind rest after last named presented : Bytes)
    (kind : ℕ)
    → request ≡ put_header [] ++ behind
    → behind ≡ kind ∷ rest
    → (kind == kind_request) ≡ true
    → take_bytes rest ≡ ok (named, after)
    → take_bytes after ≡ ok (presented, last)
    → subtle_eq p (tag p secret named) presented ≡ true
    → named ≡ offered
    → IsRequest p request secret offered
assemble p request secret offered behind rest after last named presented kind whole first one took
      tagged genuine same =
    record {
      framed = rest;
      behind_package = after;
      behind_tag = last;
      shape =
          whole
          ∙ ap (λ t. put_header [] ++ t) (first ∙ ap (λ (k : ℕ). k ∷ rest) ((==_iff kind 1).0 one));
      reads_package = rw same at took;
      reads_tag =
          rw (← same) (rw ((subtle_eq_iff p (tag p secret named) presented).0 genuine) tagged);
    }

admitted_package-IsRequest :
    (p : Primitives) (request secret : Bytes) {offered : Bytes}
    → admitted_package p request secret ≡ ok offered
    → IsRequest p request secret offered
unfolding admitted_package
admitted_package-IsRequest p request secret {offered} h =
    let (behind, header, h1) = >>=-eq-ok (take_header request) _ h in
    let ((kind, rest), first, h2) = >>=-eq-ok (ok_or (split_first behind) _) _ h1 in
    let (_, is_kind, h3) = >>=-eq-ok (refuse_if (not (kind == kind_request)) _) _ h2 in
    let ((named, after), took, h4) = >>=-eq-ok (take_bytes rest) _ h3 in
    let ((presented, last), tagged, h5) = >>=-eq-ok (take_bytes after) _ h4 in
    let (_, checked, h6) =
      >>=-eq-ok (refuse_if (not (subtle_eq p (tag p secret named) presented)) _) _ h5 in
    assemble p request secret offered behind rest after last named presented kind
      ((take_header_iff request behind).0 header)
      (split_first-eq-some behind (ok_or-eq-ok _ _ first))
      (refuse_if-eq-ok (kind == kind_request) _ is_kind) took tagged
      (refuse_if-eq-ok (subtle_eq p (tag p secret named) presented) _ checked) (cc h6)

-- A pairing request ends in one of two ways. Either it is refused and the session is exactly what
-- it was, or it carries a key package together with the tag of that very key package under the
-- secret on the screen, and the outcome is that of adding that device.
pub accept_pairing_lem :
    {S : Type 0} (p : Primitives) (add_device : AddDevice S) (session : S) (request secret : Bytes)
    → ((e : CryptoError) × (accept_pairing p add_device session request secret ≡ (err e, session)))
      ⊎ ((offered : Bytes) × IsRequest p request secret offered
          × (accept_pairing p add_device session request secret ≡ add_device session offered))
unfolding accept_pairing
accept_pairing_lem p add_device session request secret =
    split (admitted_package p request secret) refl
  where
    split :
        (c : Checked Bytes)
        → admitted_package p request secret ≡ c
        → ((e : CryptoError) × (admit add_device session (admitted_package p request secret)
              ≡ (err e, session)))
          ⊎ ((offered : Bytes) × IsRequest p request secret offered
              × (admit add_device session (admitted_package p request secret)
                  ≡ add_device session offered))
    split (err e) h = inl (e, ap (admit add_device session) h)
    split (ok offered) h =
        inr
          (offered, admitted_package-IsRequest p request secret h, ap (admit add_device session) h)
