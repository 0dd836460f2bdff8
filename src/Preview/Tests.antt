-- ===== src/Preview/Tests.antt =====
-- Runs of the preview manager on small inputs.
use leave_cli.Prelude.{
  ℕ, ◌≡◌, refl, true, false, Option, none, some, List, [], ◌∷◌, ◌==◌, if◌then◌else◌,
}
use leave_cli.Prelude.Text.{Text, codes, text_eq}
use leave_cli.Prelude.Maps.{insert, remove, lookup}
use leave_cli.Preview.{
  Url, domain, navigate, create, control, validate_loopback_url, check_loopback, origin,
}
use leave_cli.Preview.Origin.{
  Everywhere, IsApproved, Call, created, controlled, called, called-IsApproved,
}

-- A parser that knows two addresses.
abbrev home_url : Text → Url
home_url path = record {
  text = path;
  scheme = codes "http";
  host = some (domain (codes "localhost"));
  host_text = codes "localhost";
  username = [];
  has_password = false;
  has_fragment = false;
  port = some 3000;
}

abbrev parse_home : Text → Option Url
parse_home [] = none
parse_home (first ∷ rest) = if first == b'h' then some (home_url rest) else none

abbrev calls : List (Call ℕ)
calls =
    created true (1 ∷ []) (b'h' ∷ []) 800 600
    ∷ controlled true (1 ∷ []) (navigate (b'h' ∷ b'a' ∷ []))
    ∷ controlled true (1 ∷ []) (navigate (b'x' ∷ []))
    ∷ []

-- The foreign address is refused: one control is queued.
one_navigation :
    called parse_home calls (record { enabled = true; chrome = some []; sessions = [] }) ≡ record {
      enabled = true;
      chrome = some [];
      sessions =
          (
            1 ∷ [],
            record {
              approved_origin = origin (home_url []);
              controls = navigate (b'h' ∷ b'a' ∷ []) ∷ [];
            },
          )
          ∷ [];
    }
unfolding create control validate_loopback_url check_loopback origin insert remove lookup text_eq
    codes
one_navigation = refl

called-IsApproved_example :
    Everywhere
      (IsApproved parse_home)
      (called parse_home calls
        (record { enabled = true; chrome = some []; sessions = [] })).sessions
called-IsApproved_example = called-IsApproved parse_home calls true (some [])
