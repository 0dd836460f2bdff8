-- ===== src/Host/Serve/Laws.antt =====
-- How the registry of a served route can change.
use leave_cli.Prelude.{
  ◌≡◌, ◌⊎◌, inl, inr, refl, sym, ap, ◌∙◌, Bool, Option, none, some, List, [], ◌∷◌, ok, err,
  Bool-cases, Option-cases, some-injective,
}
use mathlib.Core.Path.{subst}
use leave_cli.Prelude.Text.{Text, text_eq, text_eq_iff}
use leave_cli.Prelude.Maps.{lookup-insert}
use leave_cli.Crypto.Error.{Bytes, Checked}
use leave_cli.Crypto.Primitives.{Primitives}
use leave_cli.Crypto.Pairing.{Invitation, is_pairing_frame, pairing_welcome}
use leave_cli.Crypto.Pairing.Admission.{IsRequest, accept_pairing_lem}
use leave_cli.Crypto.Session.{Mls, OpenedMessage, add_device, open_message, seal_message}
use leave_cli.Tunnel.{TunnelResponse}
use leave_cli.Host.Registry.{DeviceRegistry, DeviceGrant, newly_paired, get_grant}
use leave_cli.Host.Handle.{Service, handle}
use leave_cli.Host.Revoke.{revocation_target, revoke}
use leave_cli.Host.Revoke.Laws.{revoke-Shrinks}
use leave_cli.Host.Serve.{
  Host, Served, admit_newest, newest_device, paired, sealed, answer, opened_by, pairing_step,
  serve_step, serve_route,
}
use leave_cli.Host.Revoke.Laws.{Shrinks}

admit_newest-lookup :
    (registry : DeviceRegistry) (device : Option Text) (other : Text) (grant : DeviceGrant)
    → get_grant (admit_newest registry device) other ≡ some grant
    → (get_grant registry other ≡ some grant) ⊎ ((device ≡ some other) × (grant ≡ newly_paired))
admit_newest-lookup registry none other grant held = inl held
admit_newest-lookup registry (some device) other grant held =
    elim (Bool-cases (text_eq device other)) [
      | inl same ↦ inr (
        ap some ((text_eq_iff device other).0 same),
        some-injective (sym held ∙ lookup-insert device other newly_paired registry ∙ rw same refl),
      )
      | inr differ ↦
          inl (sym (lookup-insert device other newly_paired registry ∙ rw differ refl) ∙ held)
    ]

module _ {G W : Type 0} (p : Primitives) (mls : Mls G) (service : Service W) (own : Text)
    (delivers : Bytes → Bool) where
  -- Nobody gains, and the pairing code stays as it is.
  abbrev pub Settled : Host G W → Host G W → Type 0
  Settled before after = Shrinks before.registry after.registry × (after.pairing ≡ before.pairing)

  -- The code on the screen has let the sender of this frame in, and is used up.
  pub record IsAdmitted (frame : Bytes) (before after : Host G W) : Type 0 where
    pub secret : Bytes
    pub offered : Bytes
    pub device : Option Text
    pub was_open : before.pairing ≡ some secret
    pub is_request : IsRequest p frame secret offered
    pub is_closed : after.pairing ≡ none
    pub registry : after.registry ≡ admit_newest before.registry device

  sealed_keeps :
      (h : Host G W) (r : Checked Bytes × G)
      → ((sealed p mls service own delivers h r).host.registry ≡ h.registry)
        × ((sealed p mls service own delivers h r).host.pairing ≡ h.pairing)
  sealed_keeps h (err e, g) = (refl, refl)
  sealed_keeps h (ok frame, g) = (refl, refl)

  answer_keeps :
      (response : TunnelResponse) (h : Host G W)
      → ((answer p mls service own delivers response h).host.registry ≡ h.registry)
        × ((answer p mls service own delivers response h).host.pairing ≡ h.pairing)
  answer_keeps response h = elim (Option-cases (service.encode response)) [
    | inl unencodable ↦ rw (unencodable, answer) (refl, refl)
    | inr (payload, e) ↦ rw (e, answer) (sealed_keeps h (seal_message mls h.session payload))
  ]

  answer_settles :
      (h : Host G W) (response : TunnelResponse) (after : Host G W)
      → Shrinks h.registry after.registry
      → after.pairing ≡ h.pairing
      → Settled h (answer p mls service own delivers response after).host
  answer_settles h response after shrinks same =
      let (registry, pairing) = answer_keeps response after in
      (
        λ device grant held.
            shrinks device grant (ap (λ m. get_grant m device) (sym registry) ∙ held),
        pairing ∙ same,
      )

  opened_settles :
      (h : Host G W) (r : Checked OpenedMessage × G)
      → Settled h (opened_by p mls service own delivers h r).host
  opened_settles h (err e, g) = (λ device grant held. held, refl)
  opened_settles h (ok opened, g) = elim (Option-cases (revocation_target service opened)) [
    | inl other ↦
        rw (other, opened_by)
          (answer_settles h (handle service h.registry opened h.workspace).0
            (record {
              session = g;
              registry = h.registry;
              workspace = (handle service h.registry opened h.workspace).1;
              pairing = h.pairing;
            })
            (λ device grant held. held) refl)
    | inr (target, e) ↦
        let made = revoke mls service g h.registry opened target in
        rw (e, opened_by)
          (answer_settles h made.0
            (record {
              session = made.1;
              registry = made.2;
              workspace = h.workspace;
              pairing = h.pairing;
            })
            (revoke-Shrinks mls service g h.registry opened target) refl)
  ]

  paired_cases :
      (frame secret offered : Bytes) (h : Host G W) (r : Checked Invitation × G)
      → h.pairing ≡ some secret
      → IsRequest p frame secret offered
      → Settled h (paired p mls service own delivers h r).host
        ⊎ IsAdmitted frame h (paired p mls service own delivers h r).host
  paired_cases frame secret offered h (err e, g) shown request =
      inl (λ device grant held. held, refl)
  paired_cases frame secret offered h (ok invitation, g) shown request =
      elim (Bool-cases (delivers (pairing_welcome invitation))) [
        | inl sent ↦ inr (
            rw sent (record {
              secret = secret;
              offered = offered;
              device = newest_device mls own g h.registry;
              was_open = shown;
              is_request = request;
              is_closed = refl;
              registry = refl;
            }))
        | inr lost ↦ inl (rw lost (λ device grant held. held, refl))
      ]

  abbrev Outcome : Bytes → Host G W → Served G W → Type 0
  Outcome frame h served = Settled h served.host ⊎ IsAdmitted frame h served.host

  pairing_cases :
      (frame : Bytes) (h : Host G W) (code : Option Bytes)
      → h.pairing ≡ code
      → Outcome frame h (pairing_step p mls service own delivers h frame code)
  pairing_cases frame h none shown = inl (λ device grant held. held, refl)
  pairing_cases frame h (some secret) shown =
      elim (accept_pairing_lem p (add_device mls) h.session frame secret) [
        | inl (e, refused) ↦
            subst (λ r. Outcome frame h (paired p mls service own delivers h r)) (sym refused)
              (inl (λ device grant held. held, refl))
        | inr (offered, request, outcome) ↦
            subst (λ r. Outcome frame h (paired p mls service own delivers h r)) (sym outcome)
              (paired_cases frame secret offered h (add_device mls h.session offered) shown request)
      ]

  -- A frame leaves the registry without any new grant and the pairing code as it was. Or it carries
  -- the tag of the secret on the screen over its key package; then the code is used up, and one
  -- device at most gains a grant, that of a newly paired phone.
  pub serve_step_lem :
      (frame : Bytes) (h : Host G W)
      → Settled h (serve_step p mls service own delivers frame h).host
        ⊎ IsAdmitted frame h (serve_step p mls service own delivers frame h).host
  unfolding serve_step
  serve_step_lem frame h = elim (Bool-cases (is_pairing_frame frame)) [
    | inl pairing ↦ rw pairing (pairing_cases frame h h.pairing refl)
    | inr other ↦ rw other (inl (opened_settles h (open_message mls h.session frame)))
  ]

  abbrev run : List Bytes → Host G W → Served G W
  run = serve_route p mls service own delivers

  abbrev one : Bytes → Host G W → Served G W
  one = serve_step p mls service own delivers

  -- The host after a first frame is the host after one step, perhaps after the other frames too.
  serve_route-cases :
      (frame : Bytes) (frames : List Bytes) (h : Host G W)
      → ((run (frame ∷ frames) h).host ≡ (one frame h).host)
        ⊎ ((run (frame ∷ frames) h).host ≡ (run frames (one frame h).host).host)
  unfolding serve_route
  serve_route-cases frame frames h =
      elim (Bool-cases (serve_step p mls service own delivers frame h).goes_on) [
        | inl on ↦ inr (rw on refl)
        | inr stop ↦ inl (rw stop refl)
      ]

  split_route :
      (P : Host G W → Type 0) (frame : Bytes) (frames : List Bytes) (h : Host G W)
      → P (one frame h).host
      → P (run frames (one frame h).host).host
      → P (run (frame ∷ frames) h).host
  split_route P frame frames h stopped went = elim (serve_route-cases frame frames h) [
    | inl stop ↦ subst P (sym stop) stopped
    | inr on ↦ subst P (sym on) went
  ]

  -- While no code is on the screen, no sequence of frames gives any device a grant that it did not
  -- hold, and none opens the pairing again.
  pub serve_route-closed :
      (frames : List Bytes) (h : Host G W)
      → h.pairing ≡ none
      → Shrinks h.registry (serve_route p mls service own delivers frames h).host.registry
        × ((serve_route p mls service own delivers frames h).host.pairing ≡ none)
  unfolding serve_route
  serve_route-closed [] h closed = (λ device grant held. held, closed)
  serve_route-closed (frame ∷ frames) h closed = elim (serve_step_lem frame h) [
    | inr admitted ↦ absurd (cc (closed, admitted.was_open))
    | inl (shrinks, same) ↦
        let (further, still) = serve_route-closed frames (one frame h).host (same ∙ closed) in
        split_route (λ after. Shrinks h.registry after.registry × (after.pairing ≡ none)) frame
          frames h (shrinks, same ∙ closed)
          (λ device grant held. shrinks device grant (further device grant held), still)
  ]

  -- Nobody but the device gains anything, and it gains the grant of a newly paired phone.
  abbrev pub OnlyGains : Option Text → DeviceRegistry → DeviceRegistry → Type 0
  OnlyGains device before after =
      (other : Text) (grant : DeviceGrant)
      → get_grant after other ≡ some grant
      → (get_grant before other ≡ some grant) ⊎ ((device ≡ some other) × (grant ≡ newly_paired))

  -- Whatever frames arrive, one pairing code lets in one device at most, as a newly paired phone;
  -- nobody else ends with a grant that it did not hold before.
  pub serve_route-one_device :
      (frames : List Bytes) (h : Host G W)
      → (device : Option Text) × OnlyGains device h.registry
          (serve_route p mls service own delivers frames h).host.registry
  unfolding serve_route
  serve_route-one_device [] h = (none, λ other grant held. inl held)
  serve_route-one_device (frame ∷ frames) h = elim (serve_step_lem frame h) [
    | inr admitted ↦
        let joined = admitted_gains frame h (one frame h).host admitted in
        let (further, still) = serve_route-closed frames (one frame h).host admitted.is_closed in
        (
          admitted.device,
          split_route (λ after. OnlyGains admitted.device h.registry after.registry) frame frames h
              joined (λ other grant held. joined other grant (further other grant held)),
        )
    | inl (shrinks, same) ↦
        let (device, gains) = serve_route-one_device frames (one frame h).host in
        (
          device,
          split_route (λ after. OnlyGains device h.registry after.registry) frame frames h
              (λ other grant held. inl (shrinks other grant held))
              (λ other grant held. kept other grant (shrinks other grant) (gains other grant held)),
        )
  ]
    where
      kept :
          {device : Option Text} (other : Text) (grant : DeviceGrant)
          → (get_grant (one frame h).host.registry other ≡ some grant
              → get_grant h.registry other ≡ some grant)
          → (get_grant (one frame h).host.registry other ≡ some grant)
            ⊎ ((device ≡ some other) × (grant ≡ newly_paired))
          → (get_grant h.registry other ≡ some grant)
            ⊎ ((device ≡ some other) × (grant ≡ newly_paired))
      kept other grant shrinks (inl held) = inl (shrinks held)
      kept other grant shrinks (inr gained) = inr gained

      admitted_gains :
          (frame : Bytes) (before after : Host G W) (a : IsAdmitted frame before after)
          → OnlyGains a.device before.registry after.registry
      admitted_gains frame before after a other grant held =
          admit_newest-lookup before.registry a.device other grant
            (ap (λ m. get_grant m other) (sym a.registry) ∙ held)
