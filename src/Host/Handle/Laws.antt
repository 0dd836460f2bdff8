-- ===== src/Host/Handle/Laws.antt =====
-- What stands between a device's request and the workspace.
use leave_cli.Prelude.{
  ◌≡◌, ◌≢◌, ◌⊎◌, inl, inr, refl, sym, ap, ◌∙◌, true, false, Option, none, some, [], ◌∷◌, Result, ok,
  err, length, All, Bool-cases, Option-cases, some-injective, ltb,
}
use leave_cli.Prelude.Text.{Text}
use leave_cli.Prelude.Maps.{Assoc}
use leave_cli.Crypto.Session.{OpenedMessage}
use leave_cli.Tunnel.{TunnelRequest, TunnelError, validate, max_tunnel_body_bytes}
use leave_cli.Host.Registry.{DeviceRegistry, permitted}
use leave_cli.Host.Handle.{
  HttpResponse, Service, refusal, is_transport_header, carried_headers, http_request, dispatch,
  completed, answer_validated, handle, respond,
}

module _ {W : Type 0} (service : Service W) (registry : DeviceRegistry) where
  validated-cases :
      (sender : Text) (request : TunnelRequest) (w : W) (v : Result TunnelError (Unit {0}))
      → let (reply, after) = answer_validated service registry sender request v w in
        ((reply.status ≡ 400) × (after ≡ w) × (v ≢ ok tt))
        ⊎ ((reply.status ≡ 403)
            × (after ≡ w)
            × (v ≡ ok tt)
            × (permitted registry sender request.method request.path ≡ false))
        ⊎ ((v ≡ ok tt)
            × (permitted registry sender request.method request.path ≡ true)
            × (answer_validated service registry sender request v w
                ≡ completed service request (dispatch service request w)))
  unfolding refusal
  validated-cases sender request w (err e) = inl (refl, refl, λ h. cc)
  validated-cases sender request w (ok _) =
      elim (Bool-cases (permitted registry sender request.method request.path)) [
        | inl may ↦ inr (inr (refl, may, rw may refl))
        | inr may_not ↦ inr (inl (rw may_not refl, rw may_not refl, refl, may_not))
      ]

  -- A message of a device is answered in one of three ways. It does not decode or does not validate:
  -- status 400, and the workspace is untouched. It validates, but the registry does not permit it to
  -- the authenticated sender: status 403, and the workspace is untouched. Or it validates and is
  -- permitted, and only then is it dispatched to the workspace.
  pub handle_lem :
      (opened : OpenedMessage) (w : W)
      → let (reply, after) = handle service registry opened w in
        ((reply.status ≡ 400)
          × (after ≡ w)
          × ((request : TunnelRequest)
              → service.decode opened.plaintext ≡ some request
              → validate request ≢ ok tt))
        ⊎ ((request : TunnelRequest) × (service.decode opened.plaintext ≡ some request)
            × (reply.status ≡ 403)
            × (after ≡ w)
            × (validate request ≡ ok tt)
            × (permitted registry opened.sender_device_id request.method request.path ≡ false))
        ⊎ ((request : TunnelRequest) × (service.decode opened.plaintext ≡ some request)
            × (validate request ≡ ok tt)
            × (permitted registry opened.sender_device_id request.method request.path ≡ true)
            × (handle service registry opened w
                ≡ completed service request (dispatch service request w)))
  unfolding handle refusal
  handle_lem opened w = elim (Option-cases (service.decode opened.plaintext)) [
    | inl undecoded ↦
        inl
          (rw (undecoded, handle) refl, rw (undecoded, handle) refl, λ request e. cc (undecoded, e))
    | inr (request, e) ↦
        elim (validated-cases opened.sender_device_id request w (validate request)) [
          | inl (status, same, invalid) ↦ inl (
            rw (e, handle) status,
            rw (e, handle) same,
            λ other d v. invalid (ap validate (some-injective (sym e ∙ d)) ∙ v),
          )
          | inr (inl (status, same, valid, may_not)) ↦
              inr (inl (request, e, rw (e, handle) status, rw (e, handle) same, valid, may_not))
          | inr (inr (valid, may, dispatched)) ↦
              inr (inr (request, e, valid, may, rw (e, handle) dispatched))
        ]
  ]

-- What `dispatch` passes on: no header that belongs to the loopback listener.
pub carried_headers-IsAllowed :
    (headers : Assoc Text)
    → All (λ (name, value). is_transport_header name ≡ false) (carried_headers headers)
unfolding carried_headers
carried_headers-IsAllowed [] = tt
carried_headers-IsAllowed ((name, value) ∷ rest) =
    let further = carried_headers-IsAllowed rest in
    elim (Bool-cases (is_transport_header name)) [
      | inl transport ↦ rw transport further
      | inr other ↦ rw other (other, further)
    ]

-- Every answer to a decoded request carries the exchange identifier of that request, so a device
-- can match them.
pub handle-exchange_id :
    {W : Type 0} (service : Service W) (registry : DeviceRegistry) (opened : OpenedMessage) (w : W)
    (request : TunnelRequest)
    → service.decode opened.plaintext ≡ some request
    → (handle service registry opened w).0.exchange_id ≡ request.exchange_id
unfolding handle refusal dispatch
handle-exchange_id {W = W} service registry opened w request e =
    rw (e, handle) (validated (validate request))
  where
    answered :
        (o : Option HttpResponse) (after : W)
        → (completed service request (respond request o, after)).0.exchange_id ≡ request.exchange_id
    answered none after = refl
    answered (some response) after =
        elim (Bool-cases (ltb max_tunnel_body_bytes (length response.body))) [
          | inl large ↦ rw large refl
          | inr small ↦ rw small refl
        ]

    dispatched :
        (completed service request (dispatch service request w)).0.exchange_id ≡ request.exchange_id
    dispatched = elim (Bool-cases (service.is_buildable (http_request request))) [
      | inl built ↦
          rw (built, dispatch)
            (answered (service.oneshot (http_request request) w).0
              (service.oneshot (http_request request) w).1)
      | inr unbuilt ↦ rw (unbuilt, dispatch) refl
    ]

    validated :
        (v : Result TunnelError (Unit {0}))
        → (answer_validated service registry opened.sender_device_id request v w).0.exchange_id
          ≡ request.exchange_id
    validated (err e) = refl
    validated (ok _) =
        elim (Bool-cases (permitted registry opened.sender_device_id request.method request.path)) [
          | inl may ↦ rw may dispatched
          | inr may_not ↦ rw may_not refl
        ]
