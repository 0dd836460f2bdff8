-- ===== src/Preview/Origin.antt =====
-- Previews stay on the loopback origin that they were approved for.
use leave_cli.Prelude.{
  ℕ, ◌≡◌, refl, ap, sym, ◌∙◌, inl, inr, Bool, true, false, not, ◌||◌, Option, some, List, [], ◌∷◌,
  Result, ok, err, ok_or, refuse_if, >>=-eq-ok, arith, All, All-append, Bool-cases, Option-cases,
  some-injective,
}
use mathlib.Core.Path.{subst}
use leave_cli.Prelude.Text.{Text, codes, text_eq, text_eq_iff}
use leave_cli.Prelude.Maps.{Assoc, lookup, insert, remove}
use leave_cli.Preview.{
  Url, UrlOrigin, PreviewError, names_loopback, check_loopback, validate_loopback_url, origin,
  origin_eq, PreviewControl, navigate, click, insert_text, PreviewSession, PreviewManager, create,
  control, approved, launched, permitted, queued, preview_off, no_browser, bad_dimensions,
  foreign_origin, in_range,
}

module _ {V : Type 0} (P : V → Type 0) where
  abbrev pub Everywhere : Assoc V → Type 0
  Everywhere m = All (λ row. P row.1) m

  Everywhere-remove : (k : Text) (m : Assoc V) → Everywhere m → Everywhere (remove k m)
  unfolding remove
  Everywhere-remove k [] h = tt
  Everywhere-remove k ((j, v) ∷ m) (p, h) = elim (Bool-cases (text_eq j k)) [
    | inl same ↦ rw same (Everywhere-remove k m h)
    | inr other ↦ rw other (p, Everywhere-remove k m h)
  ]

  Everywhere-insert :
      (k : Text) (v : V) (m : Assoc V) → P v → Everywhere m → Everywhere (insert k v m)
  unfolding insert
  Everywhere-insert k v m p h = (p, Everywhere-remove k m h)

  Everywhere-lookup : (k : Text) (m : Assoc V) (v : V) → Everywhere m → lookup k m ≡ some v → P v
  unfolding lookup
  Everywhere-lookup k [] v h e = cc
  Everywhere-lookup k ((j, w) ∷ m) v (p, h) e = elim (Bool-cases (text_eq j k)) [
    | inl same ↦ subst P (some-injective (rw same at e)) p
    | inr other ↦ Everywhere-lookup k m v h (rw other at e)
  ]

-- A URL that leads to this computer over plain HTTP.
abbrev pub LeadsHome : Url → Type 0
LeadsHome u = (u.scheme ≡ codes "http") × (names_loopback u.host ≡ true)

check_loopback-ok : (url u : Url) → check_loopback url ≡ ok u → (u ≡ url) × LeadsHome url
unfolding check_loopback
check_loopback-ok url u h = elim (Bool-cases (text_eq url.scheme (codes "http"))) [
  | inr other ↦ cc (rw other at h)
  | inl plain ↦ elim (Bool-cases (names_loopback url.host)) [
    | inr away ↦ ground (arith, h, away, plain)
    | inl home ↦
        (ground (arith, h, home, plain), ((text_eq_iff url.scheme (codes "http")).0 plain, home))
  ]
]

validate-ok :
    (parse : Text → Option Url) (value : Text) (u : Url)
    → validate_loopback_url parse value ≡ ok u
    → (parse value ≡ some u) × LeadsHome u
unfolding validate_loopback_url
validate-ok parse value u h = elim (Option-cases (parse value)) [
  | inl broken ↦ cc (rw broken at h)
  | inr (url, parsed) ↦
      let (same, home) = check_loopback-ok url u (rw parsed at h) in
      (parsed ∙ ap some (sym same), subst LeadsHome (sym same) home)
]

pub data Call (F : Type 0) : Type 0 where
  created : (starts : Bool) (id url : Text) (width height : ℕ) → Call F
  controlled : (runs : Bool) (id : Text) (c : PreviewControl F) → Call F

IsHome : Result PreviewError Url → Type 0
IsHome (err e) = Unit
IsHome (ok u) = LeadsHome u

module _ {F : Type 0} (parse : Text → Option Url) where
  abbrev pub Stays : UrlOrigin → PreviewControl F → Type 0
  Stays at (navigate url) =
      (u : Url) × (parse url ≡ some u) × LeadsHome u × (origin_eq (origin u) at ≡ true)
  Stays at (click x y) = Unit {0}
  Stays at (insert_text text) = Unit {0}

  -- The origin is that of a URL that leads home, and no queued navigation leaves it.
  abbrev pub IsApproved : PreviewSession F → Type 0
  IsApproved s =
      ((u : Url) × LeadsHome u × (s.approved_origin ≡ origin u))
      × All (Stays s.approved_origin) s.controls

  permitted-Stays :
      (at : UrlOrigin) (c : PreviewControl F) → permitted parse at c ≡ ok tt → Stays at c
  permitted-Stays at (click x y) h = tt
  permitted-Stays at (insert_text text) h = tt
  permitted-Stays at (navigate url) h =
      let (u, valid, fits) =
        >>=-eq-ok (validate_loopback_url parse url)
          (λ target. refuse_if (not (origin_eq (origin target) at)) foreign_origin) h in
      let (parsed, home) = validate-ok parse url u valid in (u, parsed, home, ground (arith, fits))

  approved-LeadsHome :
      (m : PreviewManager F) (url : Text) (width height : ℕ) (target : Url)
      → approved parse m url width height ≡ ok target
      → LeadsHome target
  unfolding IsHome
  approved-LeadsHome m url width height target h =
      let (_, _, rest) = >>=-eq-ok (refuse_if (not m.enabled) preview_off) _ h in
      let (_, _, rest) = >>=-eq-ok (ok_or m.chrome no_browser) _ rest in
      let (u, valid, rest) = >>=-eq-ok (validate_loopback_url parse url) _ rest in
      let (_, _, same) =
        >>=-eq-ok (refuse_if (not (in_range width) || not (in_range height)) bad_dimensions) _
          rest in
      subst (λ r. IsHome r) same (validate-ok parse url u valid).1

  launched-Everywhere :
      (starts : Bool) (id : Text) (m : PreviewManager F) (r : Result PreviewError Url)
      → ((target : Url) → r ≡ ok target → LeadsHome target)
      → Everywhere IsApproved m.sessions
      → Everywhere IsApproved (launched parse starts id m r).1.sessions
  launched-Everywhere starts id m (err e) home h = h
  launched-Everywhere false id m (ok target) home h = h
  launched-Everywhere true id m (ok target) home h =
      Everywhere-insert IsApproved id _ m.sessions ((target, home target refl, refl), tt) h

  queued-Everywhere :
      (runs : Bool) (id : Text) (c : PreviewControl F) (s : PreviewSession F) (m : PreviewManager F)
      (r : Result PreviewError (Unit {0}))
      → (r ≡ ok tt → Stays s.approved_origin c)
      → IsApproved s
      → Everywhere IsApproved m.sessions
      → Everywhere IsApproved (queued parse runs id c s m r).1.sessions
  queued-Everywhere runs id c s m (err e) stays ours h = h
  queued-Everywhere false id c s m (ok _) stays ours h = h
  queued-Everywhere true id c s m (ok _) stays (at, within) h =
      Everywhere-insert IsApproved id _ m.sessions
        (at, All-append (Stays s.approved_origin) s.controls (c ∷ []) within (stays refl, tt)) h

  create-Everywhere :
      (starts : Bool) (id url : Text) (width height : ℕ) (m : PreviewManager F)
      → Everywhere IsApproved m.sessions
      → Everywhere IsApproved (create parse starts id url width height m).1.sessions
  unfolding create
  create-Everywhere starts id url width height m h =
      launched-Everywhere starts id m (approved parse m url width height)
        (approved-LeadsHome m url width height) h

  control-Everywhere :
      (runs : Bool) (id : Text) (c : PreviewControl F) (m : PreviewManager F)
      → Everywhere IsApproved m.sessions
      → Everywhere IsApproved (control parse runs id c m).1.sessions
  unfolding control
  control-Everywhere runs id c m h = elim (Option-cases (lookup id m.sessions)) [
    | inl missing ↦ rw (missing, control) h
    | inr (s, found) ↦
        rw (found, control)
          (queued-Everywhere runs id c s m (permitted parse s.approved_origin c)
            (permitted-Stays s.approved_origin c)
            (Everywhere-lookup IsApproved id m.sessions s h found) h)
  ]

  abbrev pub called : List (Call F) → PreviewManager F → PreviewManager F
  called [] m = m
  called (created starts id url width height ∷ calls) m =
      called calls (create parse starts id url width height m).1
  called (controlled runs id c ∷ calls) m = called calls (control parse runs id c m).1

  called-Everywhere :
      (calls : List (Call F)) (m : PreviewManager F)
      → Everywhere IsApproved m.sessions
      → Everywhere IsApproved (called calls m).sessions
  called-Everywhere [] m h = h
  called-Everywhere (created starts id url width height ∷ calls) m h =
      called-Everywhere calls _ (create-Everywhere starts id url width height m h)
  called-Everywhere (controlled runs id c ∷ calls) m h =
      called-Everywhere calls _ (control-Everywhere runs id c m h)

  -- Whatever is asked of a manager that has no preview yet, every preview it has then is approved for
  -- the origin of a plain HTTP URL of this computer, and each navigation that its browser is given goes
  -- to a URL that parses, is plain HTTP of this computer and has the approved origin.
  pub called-IsApproved :
      (calls : List (Call F)) (enabled : Bool) (chrome : Option Text)
      → Everywhere IsApproved
          (called calls (record { enabled = enabled; chrome = chrome; sessions = [] })).sessions
  called-IsApproved calls enabled chrome = called-Everywhere calls _ tt
