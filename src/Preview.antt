-- ===== src/Preview.antt =====
-- apps/leave/src/preview.rs: managed browsers on one loopback origin. `url::Url`, the browser and the
-- JSON of its protocol are parameters; of a URL the record has what the source asks.
pub mod Origin
mod Tests
use leave_cli.Prelude.{
  ℕ, suc, ◌+◌, Bool, true, false, not, ◌&&◌, ◌||◌, Option, none, some, List, [], ◌∷◌, ◌++◌, Result,
  ok, err, ok_or, refuse_if, ◌>>=◌, ◌>>◌, leb, ◌==◌, is_some, length, if◌then◌else◌,
}
use leave_cli.Prelude.Text.{Text, codes, text_eq, is_empty}
use leave_cli.Prelude.Maps.{Assoc, lookup, insert}
use leave_cli.LocalServer.Access.{lowercase}

pub data Host : Type 0 where
  ipv4 : (first : ℕ) → Host
  -- Whether the address is `::1`.
  ipv6 : (is_one : Bool) → Host
  domain : Text → Host

-- `first` is the first byte of an address: all of 127.0.0.0/8 is loopback.
pub record Url : Type 0 where
  pub text : Text
  pub scheme : Text
  pub host : Option Host
  -- `host_str`.
  pub host_text : Text
  pub username : Text
  pub has_password : Bool
  pub has_fragment : Bool
  -- `port_or_known_default`.
  pub port : Option ℕ

pub data PreviewError : Type 0 where
  preview_off no_browser bad_url not_plain not_loopback bad_dimensions : PreviewError
  not_launched unknown_preview foreign_origin browser_stopped : PreviewError

abbrev pub names_loopback : Option Host → Bool
names_loopback none = false
names_loopback (some (ipv4 first)) = first == 127
names_loopback (some (ipv6 is_one)) = is_one
names_loopback (some (domain name)) = text_eq (lowercase name) (codes "localhost")

-- `validate_loopback_url`, behind the parser.
unfoldable pub check_loopback : Url → Result PreviewError Url
check_loopback url = do
  refuse_if
      (not (text_eq url.scheme (codes "http"))
        || not (is_some url.host)
        || not (is_empty url.username)
        || url.has_password
        || url.has_fragment)
      not_plain
  refuse_if (not (names_loopback url.host)) not_loopback
  ok url

unfoldable pub validate_loopback_url : (Text → Option Url) → Text → Result PreviewError Url
validate_loopback_url parse value = do url ← ok_or (parse value) bad_url; check_loopback url

-- What `origin` writes as one text is kept as its three parts.
pub record UrlOrigin : Type 0 where
  pub scheme : Text
  pub host : Text
  pub port : ℕ

abbrev or_80 : Option ℕ → ℕ
or_80 none = 80
or_80 (some port) = port

unfoldable pub origin : Url → UrlOrigin
origin url = record { scheme = url.scheme; host = lowercase url.host_text; port = or_80 url.port }

abbrev pub origin_eq : UrlOrigin → UrlOrigin → Bool
origin_eq a b = text_eq a.scheme b.scheme && text_eq a.host b.host && a.port == b.port

-- A coordinate is of a type `F`: the source has floats here, and passes them on.
pub data PreviewControl (F : Type 0) : Type 0 where
  navigate : Text → PreviewControl F
  click : F → F → PreviewControl F
  insert_text : Text → PreviewControl F

-- A running preview, with what its channel of controls holds, oldest first.
pub record PreviewSession (F : Type 0) : Type 0 where
  pub approved_origin : UrlOrigin
  pub controls : List (PreviewControl F)

pub record PreviewManager (F : Type 0) : Type 0 where
  pub enabled : Bool
  pub chrome : Option Text
  pub sessions : Assoc (PreviewSession F)

abbrev pub in_range : ℕ → Bool
in_range n = leb 320 n && leb n 2560

module _ {F : Type 0} (parse : Text → Option Url) where
  unfoldable pub available : PreviewManager F → Bool
  available m = m.enabled && is_some m.chrome

  abbrev pub approved : PreviewManager F → Text → ℕ → ℕ → Result PreviewError Url
  approved m url width height = do
    refuse_if (not m.enabled) preview_off
    chrome ← ok_or m.chrome no_browser
    target ← validate_loopback_url parse url
    refuse_if (not (in_range width) || not (in_range height)) bad_dimensions
    ok target

  abbrev pub launched :
      Bool
      → Text
      → PreviewManager F
      → Result PreviewError Url
      → Result PreviewError (Text × Text) × PreviewManager F
  launched starts id m (err e) = (err e, m)
  launched starts id m (ok target) = if not starts then (err not_launched, m) else (
    ok (id, target.text),
    record m {
      sessions = insert id (record { approved_origin = origin target; controls = [] }) m.sessions;
    },
  )

  -- `create`: `starts` says whether the browser came up, and `id` is the fresh identifier.
  unfoldable pub create :
      Bool
      → Text
      → Text
      → ℕ
      → ℕ
      → PreviewManager F
      → Result PreviewError (Text × Text) × PreviewManager F
  create starts id url width height m = launched starts id m (approved m url width height)

  -- A navigation must stay on the approved origin.
  abbrev pub permitted : UrlOrigin → PreviewControl F → Result PreviewError (Unit {0})
  permitted at (navigate url) = do
    target ← validate_loopback_url parse url
    refuse_if (not (origin_eq (origin target) at)) foreign_origin
  permitted at (click x y) = ok tt
  permitted at (insert_text text) = ok tt

  abbrev pub queued :
      Bool
      → Text
      → PreviewControl F
      → PreviewSession F
      → PreviewManager F
      → Result PreviewError (Unit {0})
      → Result PreviewError (Unit {0}) × PreviewManager F
  queued runs id c s m (err e) = (err e, m)
  queued runs id c s m (ok _) = if not runs then (err browser_stopped, m) else (
    ok tt,
    record m { sessions = insert id (record s { controls = s.controls ++ c ∷ [] }) m.sessions },
  )

  -- `control`; `runs` says whether the browser's task still takes controls.
  unfoldable pub control :
      Bool
      → Text
      → PreviewControl F
      → PreviewManager F
      → Result PreviewError (Unit {0}) × PreviewManager F
  control runs id c m = elim (lookup id m.sessions) [
    | none ↦ (err unknown_preview, m)
    | some s ↦ queued runs id c s m (permitted s.approved_origin c)
  ]

-- What the task tells the browser.
pub data DevTools (F : Type 0) : Type 0 where
  enable_page enable_runtime enable_fetch capture : DevTools F
  navigate_page : Text → DevTools F
  mouse_pressed mouse_released : F → F → DevTools F
  type_text : Text → DevTools F
  continue_request fail_request : Text → DevTools F

abbrev numbered : {F : Type 0} → ℕ → List (DevTools F) → List (ℕ × DevTools F)
numbered n [] = []
numbered n (d ∷ ds) = (suc n, d) ∷ numbered (suc n) ds

-- `control_messages`.
unfoldable pub control_messages : {F : Type 0} → PreviewControl F → List (DevTools F)
control_messages (navigate url) = navigate_page url ∷ []
control_messages (click x y) = mouse_pressed x y ∷ mouse_released x y ∷ []
control_messages (insert_text text) = type_text text ∷ []

-- What the task's `select!` picks: the clock, a control, or a message of the browser with its frame
-- and the request that it paused, as far as they are there.
pub data BrowserPick (F : Type 0) : Type 0 where
  tick no_control hung_up unreadable : BrowserPick F
  controlled : PreviewControl F → BrowserPick F
  told : Option Text → Option (Text × Text) → BrowserPick F

abbrev is_on : (Text → Option Url) → UrlOrigin → Text → Bool
is_on parse at url = elim (parse url) [ none ↦ false | some u ↦ origin_eq (origin u) at ]

abbrev paused_answer :
    {F : Type 0} → (Text → Option Url) → UrlOrigin → Option (Text × Text) → List (DevTools F)
paused_answer parse at none = []
paused_answer parse at (some (request_id, url)) =
    (if is_on parse at url then continue_request request_id else fail_request request_id) ∷ []

abbrev pub answers :
    {F : Type 0} → (Text → Option Url) → UrlOrigin → BrowserPick F → List (DevTools F)
answers parse at tick = capture ∷ []
answers parse at no_control = []
answers parse at hung_up = []
answers parse at unreadable = []
answers parse at (controlled c) = control_messages c
answers parse at (told frame paused) = paused_answer parse at paused

abbrev ends : {F : Type 0} → BrowserPick F → Bool
ends no_control = true
ends hung_up = true
ends tick = false
ends unreadable = false
ends (controlled c) = false
ends (told frame paused) = false

-- The loop, as long as the browser takes what it is sent: the numbered messages.
unfoldable pub browser_loop :
    {F : Type 0}
    → (Text → Option Url)
    → UrlOrigin
    → ℕ
    → List (BrowserPick F)
    → List (ℕ × DevTools F)
browser_loop parse at n [] = []
browser_loop parse at n (pick ∷ picks) =
    let sent = answers parse at pick in
    let rest = browser_loop parse at (n + length sent) picks in
    if ends pick then [] else numbered n sent ++ rest

-- `launch_browser`: the first four messages, then the loop, which counts from 10.
unfoldable pub browser_messages :
    {F : Type 0} → (Text → Option Url) → Url → List (BrowserPick F) → List (ℕ × DevTools F)
browser_messages parse approved picks =
    ((1, enable_page)
      ∷ (2, enable_runtime)
      ∷ (3, enable_fetch)
      ∷ (4, navigate_page approved.text)
      ∷ [])
    ++ browser_loop parse (origin approved) 10 picks
