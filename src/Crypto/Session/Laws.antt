-- ===== src/Crypto/Session/Laws.antt =====
-- What removing a device and opening a message come to.
use Prim.Native.String.{String}
use leave_cli.Prelude.{
  ℕ, ◌==◌, ==_iff, ◌≡◌, inl, inr, refl, sym, ap, ◌∙◌, Bool, true, false, not, Option, none, some,
  List, [], ◌∷◌, Result, ok, err, map_err, >>=-eq-ok, find, any, keep, All, arith, Bool-cases,
  if◌then◌else◌, some-injective,
}
use mathlib.Core.Path.{subst}
use leave_cli.Prelude.Text.{Text}
use leave_cli.Crypto.Error.{CryptoError, Bytes, Checked, open_failed}
use leave_cli.Crypto.Session.{
  Member, Content, application_message, Processed, Mls, OpenedMessage, then_with, failing,
  identity_of, is_device, remove_device, remove_member, process, open_message, application,
}

-- Inversions of the two ways in which a step can fail.
module _ {G A : Type 0} where
  then_with-eq-ok :
      {B : Type 0} (r : Checked A × G) (next : A → G → Checked B × G) {b : B} {after : G}
      → then_with r next ≡ (ok b, after)
      → (a : A) × (g : G) × (r ≡ (ok a, g)) × (next a g ≡ (ok b, after))
  then_with-eq-ok (ok a, g) next h = (a, g, refl, h)
  then_with-eq-ok (err e, g) next h = cc (ap (λ x. x.0) h)

  failing-eq-ok :
      (kind : String → CryptoError) (r : Result String A × G) {a : A} {after : G}
      → failing kind r ≡ (ok a, after)
      → r ≡ (ok a, after)
  failing-eq-ok kind (ok a, g) h = cc (ap (λ x. x.0) h, ap (λ x. x.1) h)
  failing-eq-ok kind (err e, g) h = cc (ap (λ x. x.0) h)

map_err-eq-ok :
    {A : Type 0} (kind : String → CryptoError) (r : Result String A) {a : A}
    → map_err kind r ≡ ok a
    → r ≡ ok a
map_err-eq-ok kind (ok a) h = cc h
map_err-eq-ok kind (err e) h = cc h

find-any : {A : Type 0} (p : A → Bool) (xs : List A) {x : A} → find p xs ≡ some x → any p xs ≡ true
find-any p [] h = cc
find-any p (y ∷ xs) {x = x} h = elim (Bool-cases (p y)) [
  | inl good ↦ rw good refl
  | inr bad ↦ rw bad (find-any p xs {x = x} (later bad h))
]
  where
    later : p y ≡ false → (if p y then some y else find p xs) ≡ some x → find p xs ≡ some x
    later bad h = cc

-- The item found has the property, and what all items share.
find-eq-some :
    {A : Type 0} (p : A → Bool) (P : A → Type 0) (xs : List A) {x : A}
    → All P xs
    → find p xs ≡ some x
    → (p x ≡ true) × P x
find-eq-some p P [] hs h = cc
find-eq-some {A = A} p P (y ∷ xs) {x = x} (hy, hs) h =
    tested (p y) refl (λ k. find-eq-some p P xs hs k) h
  where
    tested :
        (b : Bool)
        → p y ≡ b
        → (find p xs ≡ some x → (p x ≡ true) × P x)
        → (if b then some y else find p xs) ≡ some x
        → (p x ≡ true) × P x
    tested true good rest found =
        (ap p (sym (some-injective found)) ∙ good, subst P (some-injective found) hy)
    tested false bad rest found = rest found

module _ {G : Type 0} (mls : Mls G) where
  gone :
      (device : Text) (leaf : ℕ) (ms : List Member)
      → All (λ m. is_device mls device m ≡ true → m.index ≡ leaf) ms
      → any (is_device mls device) (keep (λ m. not (m.index == leaf)) ms) ≡ false
  gone device leaf [] hs = refl
  gone device leaf (m ∷ ms) (h, hs) = ground (arith, gone device leaf ms hs, ==_iff m.index leaf)

  -- Removing a device succeeds only if it is a member. If all members with that identifier sit on
  -- one leaf, it is no member afterwards, given that the group drops a leaf when the commit that
  -- removes it is merged.
  pub remove_device_lem :
      ((leaf : ℕ) (g committed merged : G) (commit : Bytes)
        → mls.remove_members leaf g ≡ (ok commit, committed)
        → mls.merge_pending_commit committed ≡ (ok tt, merged)
        → mls.members merged ≡ keep (λ m. not (m.index == leaf)) (mls.members g))
      → (g after : G) (device : Text) (commit : Bytes) (leaf : ℕ)
      → All (λ m. is_device mls device m ≡ true → m.index ≡ leaf) (mls.members g)
      → remove_device mls g device ≡ (ok commit, after)
      → (any (is_device mls device) (mls.members g) ≡ true)
        × (any (is_device mls device) (mls.members after) ≡ false)
  unfolding remove_device
  remove_device_lem drops g after device commit leaf alone h =
      found (find (is_device mls device) (mls.members g)) refl h
    where
      found :
          (o : Option Member)
          → find (is_device mls device) (mls.members g) ≡ o
          → remove_member mls g o ≡ (ok commit, after)
          → (any (is_device mls device) (mls.members g) ≡ true)
            × (any (is_device mls device) (mls.members after) ≡ false)
      found none e h = cc (ap (λ x. x.0) h)
      found (some m) e h =
          let (is_it, at_leaf) = find-eq-some (is_device mls device) _ (mls.members g) alone e in
          let (made, committed, removed, h1) = then_with-eq-ok _ _ h in
          let (_, merged, merge, h2) = then_with-eq-ok _ _ h1 in
          (
            find-any (is_device mls device) (mls.members g) e,
            ap (λ ms. any (is_device mls device) ms)
                  (ap mls.members (sym (ap (λ x. x.1) h2))
                    ∙ drops m.index g committed merged made (failing-eq-ok _ _ removed)
                        (failing-eq-ok _ _ merge)
                    ∙ ap (λ l. keep (λ n. not (n.index == l)) (mls.members g)) (at_leaf is_it))
                ∙ gone device leaf (mls.members g) alone,
          )

  application-eq-ok :
      (sender : Text) (content : Content) (opened : OpenedMessage)
      → application mls sender content ≡ ok opened
      → (sender ≡ opened.sender_device_id) × (content ≡ application_message opened.plaintext)
  application-eq-ok sender (application_message text) opened h =
      (ap (λ r. sender_of r) h, ap (λ r. application_message (text_of r)) h)
    where
      sender_of : Checked OpenedMessage → Text
      sender_of (ok o) = o.sender_device_id
      sender_of (err e) = []

      text_of : Checked OpenedMessage → Bytes
      text_of (ok o) = o.plaintext
      text_of (err e) = []
  application-eq-ok sender _ opened h = cc

  -- An opened message is an application message of the group, and its sender is the identity of the
  -- credential that the group authenticated, whatever the payload says.
  pub open_message_lem :
      (g after : G) (ciphertext : Bytes) (opened : OpenedMessage)
      → open_message mls g ciphertext ≡ (ok opened, after)
      → (protocol : Bytes) × (processed : Processed) × (mls.as_protocol_message ciphertext
          ≡ ok protocol)
        × (mls.process_message protocol g ≡ (ok processed, after))
        × (identity_of mls processed.credential ≡ ok opened.sender_device_id)
        × (processed.content ≡ application_message opened.plaintext)
  unfolding open_message process
  open_message_lem g after ciphertext opened h =
      let (processed, reached, did, h1) = then_with-eq-ok _ _ h in
      let (protocol, same, parsed, h2) = then_with-eq-ok _ _ did in
      let (sender, named, h3) =
        >>=-eq-ok (identity_of mls processed.credential) _ (ap (λ x. x.0) h1) in
      let (from_credential, text) = application-eq-ok sender processed.content opened h3 in
      (
        protocol,
        processed,
        map_err-eq-ok open_failed _ (ap (λ x. x.0) parsed),
        cc (failing-eq-ok open_failed _ h2, ap (λ x. x.1) h1, ap (λ x. x.1) parsed),
        named ∙ ap ok from_credential,
        text,
      )
