-- ===== src/LocalServer/Laws.antt =====
-- Who passes the guards of the API, and what a client learns from it.
use leave_cli.Prelude.{
  ℕ, ◌≤◌, ◌≡◌, ◌↔◌, refl, ap, sym, ◌∙◌, inl, inr, ◌⊎◌, Bool, true, false, not, ◌||◌, Option, none,
  some, ◌++◌, Result, ok, err, refuse_if, ◌>>◌, >>=-eq-ok, map_err, arith, ltb, Bool-cases,
  Option-cases, some-injective, if◌then◌else◌,
}
use mathlib.Core.Path.{subst}
use leave_cli.Prelude.Text.{Text, codes, text_eq, text_eq_iff, is_empty}
use leave_cli.Prelude.Chars.{trim, count_chars}
use leave_cli.Store.{SessionRecord, get_session}
use leave_cli.Acp.Events.{Serde, Worker, Stamp, AgentStatus, AcpError}
use leave_cli.Acp.Sessions.{PromptAccepted, accept_prompt}
use leave_cli.LocalServer.Errors.{ApiError, forbidden, unavailable}
use leave_cli.LocalServer.Access.{
  tailnet, AccessHeaders, authorize_access, access_allowed, is_local_host, names_local, is_owner,
  lowercase, host_or_empty, lowered, require_same_origin,
}
use leave_cli.LocalServer.Hosts.{or_iff, IsHere, names_local_iff}
use leave_cli.LocalServer.Handlers.{
  require_ready, require_session, is_ready, prompt_handler, behind, known_session, check_prompt,
}

owner_iff :
    (owner : Text) (o : Option Text)
    → (is_owner owner (lowered o) ≡ true)
      ↔ ((login : Text) × (o ≡ some login) × (lowercase login ≡ owner))
owner_iff owner none = (λ h. cc, λ h. let (login, e, same) = h in cc e)
owner_iff owner (some login) = (
  λ h. (login, refl, (text_eq_iff (lowercase login) owner).0 h),
  λ h.
      let (name, e, same) = h in
      (text_eq_iff (lowercase login) owner).1 (ap lowercase (some-injective e) ∙ same),
)

abbrev guarded : {R : Type 0} → Bool → ApiError → R → Result ApiError R
guarded fits e next = if not fits then err e else ok next

guarded_iff :
    {R : Type 0} (fits : Bool) (e : ApiError) (next : R)
    → (guarded fits e next ≡ ok next) ↔ (fits ≡ true)
guarded_iff true e next = (λ h. refl, λ h. refl)
guarded_iff false e next = (λ h. cc, λ h. cc)

-- In tailnet mode a request gets through exactly when its Host header, in whatever case, is
-- `localhost`, `127.0.0.1` or `[::1]`, alone or with a colon and anything behind it, or Tailscale names
-- as its sender a login that is the owner's once it is in lowercase. So a request whose Host header is
-- another needs the owner's identity, and one that names this computer in that header needs none.
pub authorize_access_iff :
    {R : Type 0} (owner url : Text) (h : AccessHeaders) (next : R)
    → (authorize_access (tailnet owner url) h next ≡ ok next) ↔ (
        IsHere (lowercase (host_or_empty h.host))
        ⊎ ((login : Text) × (h.tailscale_user_login ≡ some login) × (lowercase login ≡ owner)))
unfolding authorize_access access_allowed is_local_host
authorize_access_iff owner url h next =
    let here = names_local (lowercase (host_or_empty h.host)) in
    let named = is_owner owner (lowered h.tailscale_user_login) in
    let message = forbidden (codes "this Leave host only accepts its owner's Tailscale identity") in
    let whole = guarded_iff (here || named) message next in
    let local = names_local_iff (lowercase (host_or_empty h.host)) in
    let login = owner_iff owner h.tailscale_user_login in
    (
      λ passed. elim ((or_iff here named).0 (whole.0 passed)) [
        | inl from_here ↦ inl (local.0 from_here)
        | inr from_owner ↦ inr (login.0 from_owner)
      ],
      λ fits. whole.1 (
          (or_iff here named).1 (elim fits [
            | inl from_here ↦ inl (local.1 from_here)
            | inr from_owner ↦ inr (login.1 from_owner)
          ])),
    )

abbrev OwnOrigin : Text → Text → Type 0
OwnOrigin host origin = (origin ≡ codes "http://" ++ host) ⊎ (origin ≡ codes "https://" ++ host)

allowed_origin_iff :
    (host origin : Text)
    → (refuse_if
          (not
            (text_eq origin (codes "http://" ++ host) || text_eq origin (codes "https://" ++ host)))
          (forbidden (codes "cross-origin WebSocket denied"))
        ≡ ok tt)
      ↔ OwnOrigin host origin
allowed_origin_iff host origin = ground (
  arith,
  text_eq_iff origin (codes "http://" ++ host),
  text_eq_iff origin (codes "https://" ++ host),
)

-- A WebSocket is opened exactly for a request with a Host and an Origin header whose origin is the
-- host itself, over http or https.
pub require_same_origin_iff :
    (h : AccessHeaders)
    → (require_same_origin h ≡ ok tt) ↔ (
        (host : Text) × (origin : Text) × (h.host ≡ some host)
        × (h.origin ≡ some origin)
        × ((origin ≡ codes "http://" ++ host) ⊎ (origin ≡ codes "https://" ++ host)))
unfolding require_same_origin
require_same_origin_iff h = elim (Option-cases h.host) [
  | inl no_host ↦ (
    λ passed. cc (rw no_host at passed),
    λ fits. let (host, origin, there, named, same) = fits in cc (no_host, there),
  )
  | inr (host, hosted) ↦ elim (Option-cases h.origin) [
    | inl no_origin ↦ (
      λ passed. cc (rw (hosted, no_origin) at passed),
      λ fits. let (host', origin, there, named, same) = fits in cc (no_origin, named),
    )
    | inr (origin, named) ↦ (
      λ passed. (
        host,
        origin,
        hosted,
        named,
        (allowed_origin_iff host origin).0 (rw (hosted, named) at passed),
      ),
      λ fits.
          let (other, claimed, there, given, same) = fits in
          let e : other ≡ host = some-injective (sym there ∙ hosted) in
          let f : claimed ≡ origin = some-injective (sym given ∙ named) in
          rw (hosted, named)
            ((allowed_origin_iff host origin).1
              (subst (λ x. OwnOrigin x origin) e (subst (λ x. OwnOrigin other x) f same))),
    )
  ]
]

module _ {V : Type 0} (serde : Serde V) (workspace_id : Text) (status : AgentStatus V)
    (message : AcpError → Text) (stamp : Stamp) (now : ℕ) (spawns : Bool)
    (session_id text command_id : Text) (w : Worker) where
  abbrev handled : Result ApiError PromptAccepted × Worker
  handled =
      prompt_handler serde workspace_id status message stamp now spawns session_id text command_id w

  behind_cases :
      {A : Type 0} (check : Result ApiError (Unit {0})) (failure : AcpError → ApiError)
      (action : Worker → Result AcpError A × Worker)
      → ((e : ApiError) × (check ≡ err e) × (behind serde check failure action w ≡ (err e, w)))
        ⊎ ((check ≡ ok tt)
            × (behind serde check failure action w ≡ (map_err failure (action w).0, (action w).1)))
  behind_cases (err e) failure action = inl (e, refl, refl)
  behind_cases (ok _) failure action = inr (refl, refl)

  known_session-ok :
      {u : Unit {0}}
      → known_session serde workspace_id status message session_id w ≡ ok u
      → (is_ready status.state ≡ true)
        × ((s : SessionRecord) × (get_session workspace_id session_id w.tables ≡ some s))
  unfolding require_ready require_session
  known_session-ok h = elim (Bool-cases (is_ready status.state)) [
    | inr waiting ↦ cc (rw waiting at h)
    | inl ready ↦ elim (Option-cases (get_session workspace_id session_id w.tables)) [
      | inl unknown ↦ cc (rw (ready, unknown) at h)
      | inr found ↦ (ready, found)
    ]
  ]

  check_prompt-ok :
      (t : Text)
      → check_prompt serde workspace_id status message t ≡ ok tt
      → (is_empty t ≡ false) × (count_chars t ≤ 100000)
  check_prompt-ok t h = elim (Bool-cases (is_empty t)) [
    | inl blank ↦ cc (rw blank at h)
    | inr says ↦ elim (Bool-cases (ltb 100000 (count_chars t))) [
      | inl long ↦ cc (rw (says, long) at h)
      | inr short ↦ (says, ground (arith, short))
    ]
  ]

  -- A prompt reaches the worker only while the agent is ready, for a session that is registered in
  -- the workspace, and with a trimmed text of 1 to 100,000 characters; otherwise nothing changes. What
  -- reaches it is the trimmed text, and the worker's answer is passed on.
  pub prompt_handler_lem :
      ((e : ApiError) × (handled ≡ (err e, w)))
      ⊎ ((is_ready status.state ≡ true)
          × ((s : SessionRecord) × (get_session workspace_id session_id w.tables ≡ some s))
          × (is_empty (trim text) ≡ false)
          × (count_chars (trim text) ≤ 100000)
          × (handled.1
              ≡ (accept_prompt serde stamp now spawns workspace_id session_id
                  (trim text)
                  command_id
                  w).1)
          × (handled.0
              ≡ map_err
                  (λ e. unavailable (message e))
                  (accept_prompt serde stamp now spawns workspace_id session_id
                    (trim text)
                    command_id
                    w).0))
  unfolding prompt_handler
  prompt_handler_lem =
      elim (behind_cases
        (known_session serde workspace_id status message session_id w
          >> check_prompt serde workspace_id status message (trim text))
        (λ e. unavailable (message e))
        (accept_prompt serde stamp now spawns workspace_id session_id (trim text) command_id)) [
          | inl (e, refused, answer) ↦ inl (e, answer)
          | inr (passed, answer) ↦
              let (known, registered, checked) =
                >>=-eq-ok (known_session serde workspace_id status message session_id w)
                  (λ _. check_prompt serde workspace_id status message (trim text)) passed in
              let (ready, found) = known_session-ok registered in
              let (says, short) = check_prompt-ok (trim text) checked in
              inr (ready, found, says, short, ap (λ r. r.1) answer, ap (λ r. r.0) answer)
        ]
