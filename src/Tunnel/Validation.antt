-- ===== src/Tunnel/Validation.antt =====
-- Which decrypted requests the host considers at all.
use leave_cli.Prelude.{◌≤◌, ◌≡◌, ◌↔◌, ◌⊎◌, true, false, ◌++◌, arith, ok, length}
use leave_cli.Prelude.Text.{
  Text, codes, text_eq_iff, starts_with, contains, Within, starts_with-append,
  starts_with-eq-append, contains-eq-false_iff,
}
use leave_cli.Tunnel.{TunnelRequest, validate, known_method, bad_path, local_api}

-- The methods of the local API.
abbrev pub IsMethod : Text → Type 0
IsMethod m =
    (m ≡ codes "GET")
    ⊎ (m ≡ codes "POST")
    ⊎ (m ≡ codes "PUT")
    ⊎ (m ≡ codes "PATCH")
    ⊎ (m ≡ codes "DELETE")
    ⊎ (m ≡ codes "HEAD")

known_method_iff : (m : Text) → (known_method m ≡ true) ↔ IsMethod m
unfolding known_method
known_method_iff m = ground (
  arith,
  text_eq_iff m (codes "GET"),
  text_eq_iff m (codes "POST"),
  text_eq_iff m (codes "PUT"),
  text_eq_iff m (codes "PATCH"),
  text_eq_iff m (codes "DELETE"),
  text_eq_iff m (codes "HEAD"),
)

pub record IsServable (r : TunnelRequest) : Type 0 where
  pub version : r.version ≡ 1
  pub method : IsMethod r.method
  pub under_api : (rest : Text) × (r.path ≡ local_api ++ rest)
  pub no_parent : ¬ Within (codes "..") r.path
  pub no_scheme : ¬ Within (codes "://") r.path
  pub body : length r.body ≤ 4194304

module _ (p : Text) where
  bad_path-eq-false :
      (bad_path p ≡ false)
      → (starts_with p local_api ≡ true)
        × (contains p (codes "..") ≡ false)
        × (contains p (codes "://") ≡ false)
  unfolding bad_path
  bad_path-eq-false h = ground arith

  bad_path_of_parts :
      starts_with p local_api ≡ true
      → contains p (codes "..") ≡ false
      → contains p (codes "://") ≡ false
      → bad_path p ≡ false
  unfolding bad_path
  bad_path_of_parts a b c = ground arith

-- What the guards say, in the order of the code.
module _ (r : TunnelRequest) where
  abbrev Guards : Type 0
  Guards =
      (r.version ≡ 1)
      × (known_method r.method ≡ true)
      × (bad_path r.path ≡ false)
      × (length r.body ≤ 4194304)

  validate-Guards : validate r ≡ ok tt → Guards
  unfolding validate
  validate-Guards h = ground arith

  Guards-validate : Guards → validate r ≡ ok tt
  unfolding validate
  Guards-validate h = ground arith

-- A request passes validation exactly when it has version 1, one of six methods, a path that
-- begins with `/api/v1/local/` and holds neither `..` nor `://`, and a body of at most 4 MiB.
pub validate_iff : (r : TunnelRequest) → (validate r ≡ ok tt) ↔ IsServable r
validate_iff r = (to, from)
  where
    to : validate r ≡ ok tt → IsServable r
    to h =
        let (version, method, path, body) = validate-Guards r h in
        let (api, parent, scheme) = bad_path-eq-false r.path path in
        record {
          version = version;
          method = (known_method_iff r.method).0 method;
          under_api = starts_with-eq-append r.path local_api api;
          no_parent = (contains-eq-false_iff r.path (codes "..")).0 parent;
          no_scheme = (contains-eq-false_iff r.path (codes "://")).0 scheme;
          body = body;
        }

    from : IsServable r → validate r ≡ ok tt
    from s =
        let (rest, e) = s.under_api in
        Guards-validate r (
          s.version,
          (known_method_iff r.method).1 s.method,
          bad_path_of_parts r.path (rw e (starts_with-append local_api rest))
              ((contains-eq-false_iff r.path (codes "..")).1 s.no_parent)
              ((contains-eq-false_iff r.path (codes "://")).1 s.no_scheme),
          s.body,
        )
