-- ===== src/Crypto/Codec/Laws.antt =====
-- What was put is taken back, and nothing else is taken.
use leave_cli.Prelude.{
  ℕ, ◌+◌, ◌*◌, ◌≤◌, ◌<◌, ◌≡◌, ◌↔◌, refl, sym, ap, ◌∙◌, Option, none, some, List, [], ◌∷◌, ◌++◌,
  arith, ok, length, take, drop, All, All-append_left, >>=-eq-ok, ok_or, take-append, drop-append,
  take-append-drop, length-take, length-append, length-drop, true, not, ◌==◌, refuse_if, ◌>>◌,
}
use mathlib.Core.List.{append_assoc}
use leave_cli.Prelude.Text.{text_eq, text_eq_iff}
use leave_cli.Crypto.Error.{Bytes, group}
use leave_cli.Crypto.Codec.{
  magic, saturated, max_u32, to_be_bytes, from_be_bytes, split_at_checked, put_bytes, take_bytes,
  put_count, take_count, put_header, take_header, header_version, state_version,
}

abbrev pub IsByte : ℕ → Type 0
IsByte b = b < 256

saturated_fits : (n : ℕ) → n ≤ max_u32 → saturated n ≡ n
unfolding saturated
saturated_fits n h = ground arith

from_be_bytes-to_be_bytes : (n : ℕ) → n ≤ max_u32 → from_be_bytes (to_be_bytes n) ≡ some n
unfolding from_be_bytes to_be_bytes
from_be_bytes-to_be_bytes n h = ap some (omega arith)

split_at_checked-append : (xs ys : Bytes) → split_at_checked (length xs) (xs ++ ys) ≡ some (xs, ys)
unfolding split_at_checked
split_at_checked-append xs ys =
    rw (take-append xs ys, drop-append xs ys) (ground (arith, length-append xs ys))

split_at_checked-eq-some :
    (n : ℕ) (c : Bytes) {xs ys : Bytes}
    → split_at_checked n c ≡ some (xs, ys)
    → (c ≡ xs ++ ys) × (length xs ≡ n)
unfolding split_at_checked
split_at_checked-eq-some n c h = ground (arith, take-append-drop n c, length-take n c)

split_prefix :
    (n : ℕ) (rest : Bytes) → split_at_checked 4 (to_be_bytes n ++ rest) ≡ some (to_be_bytes n, rest)
unfolding to_be_bytes
split_prefix n rest = split_at_checked-append (to_be_bytes n) rest

take_bytes-framed :
    (value rest : Bytes)
    → length value ≤ max_u32
    → take_bytes (to_be_bytes (length value) ++ (value ++ rest)) ≡ ok (value, rest)
unfolding take_bytes
take_bytes-framed value rest h =
    rw (split_prefix (length value) (value ++ rest), from_be_bytes-to_be_bytes (length value) h)
      (rw (split_at_checked-append value rest))

-- A value of at most `u32::MAX` bytes is read back whole, and the cursor stands behind it.
pub take_bytes-put_bytes :
    (value rest : Bytes)
    → length value ≤ max_u32
    → take_bytes (put_bytes [] value ++ rest) ≡ ok (value, rest)
unfolding put_bytes
take_bytes-put_bytes value rest h =
    rw (saturated_fits (length value) h)
      (rw (append_assoc (to_be_bytes (length value)) value rest) (take_bytes-framed value rest h))

pub take_count-put_count :
    (count : ℕ) (rest : Bytes)
    → count ≤ max_u32
    → take_count (put_count [] count ++ rest) ≡ ok (count, rest)
unfolding take_count put_count
take_count-put_count count rest h =
    rw (saturated_fits count h) (rw (split_prefix count rest, from_be_bytes-to_be_bytes count h))

-- Appending to a buffer is appending to nothing, behind the buffer.
pub put_bytes_behind :
    (buffer value : Bytes) → put_bytes buffer value ≡ buffer ++ put_bytes [] value
unfolding put_bytes
put_bytes_behind buffer value = append_assoc buffer (to_be_bytes (saturated (length value))) value

pub put_count_behind : (buffer : Bytes) (n : ℕ) → put_count buffer n ≡ buffer ++ put_count [] n
unfolding put_count
put_count_behind buffer n = refl

pub put_header_behind : (buffer : Bytes) → put_header buffer ≡ buffer ++ put_header []
unfolding put_header
put_header_behind buffer = append_assoc buffer magic (1 ∷ [])

to_be_bytes-from_be_bytes :
    (p : Bytes) {n : ℕ}
    → All IsByte p
    → from_be_bytes p ≡ some n
    → (to_be_bytes n ≡ p) × (n ≤ max_u32)
unfolding to_be_bytes from_be_bytes
to_be_bytes-from_be_bytes (a ∷ b ∷ c ∷ d ∷ []) {n} (ha, (hb, (hc, (hd, _)))) e =
    let n' : n ≡ a * 16777216 + b * 65536 + c * 256 + d = ground arith in
    rw n' (four (omega arith) (omega arith) (omega arith) (omega arith), omega arith)
  where
    four :
        {w x y z : ℕ}
        → w ≡ a
        → x ≡ b
        → y ≡ c
        → z ≡ d
        → ◌≡◌ {A = List ℕ} (w ∷ x ∷ y ∷ z ∷ []) (a ∷ b ∷ c ∷ d ∷ [])
    four p q r s = cc
to_be_bytes-from_be_bytes _ h e = cc

-- The steps of a successful read.
pub record TakeSteps (cursor value rest : Bytes) : Type 0 where
  pub prefix : Bytes
  pub tail : Bytes
  pub size : ℕ
  pub split_size : split_at_checked 4 cursor ≡ some (prefix, tail)
  pub read_size : from_be_bytes prefix ≡ some size
  pub split_value : split_at_checked size tail ≡ some (value, rest)

pub ok_or-eq-ok {ℓ} :
    {A : Type ℓ} {E : Type 0} (o : Option A) (e : E) {a : A} → ok_or o e ≡ ok a → o ≡ some a
ok_or-eq-ok none e h = cc
ok_or-eq-ok (some a) e h = cc

take_bytes-TakeSteps :
    (cursor : Bytes) {value rest : Bytes}
    → take_bytes cursor ≡ ok (value, rest)
    → TakeSteps cursor value rest
unfolding take_bytes
take_bytes-TakeSteps cursor h =
    let ((prefix, tail), got, h1) = >>=-eq-ok (ok_or (split_at_checked 4 cursor) _) _ h in
    let (size, read, h2) = >>=-eq-ok (ok_or (from_be_bytes prefix) _) _ h1 in
    record {
      prefix = prefix;
      tail = tail;
      size = size;
      split_size = ok_or-eq-ok _ _ got;
      read_size = ok_or-eq-ok _ _ read;
      split_value = ok_or-eq-ok _ _ h2;
    }

-- Reading is exact: a value is taken only from the bytes that writing it would have put there, so
-- no two encodings of saved state differ in how they frame a value.
pub take_bytes_exact :
    (cursor : Bytes) {value rest : Bytes}
    → All IsByte cursor
    → take_bytes cursor ≡ ok (value, rest)
    → cursor ≡ put_bytes [] value ++ rest
unfolding put_bytes
take_bytes_exact cursor {value} {rest} bytes h =
    let s = take_bytes-TakeSteps cursor h in
    let (whole, _) = split_at_checked-eq-some 4 cursor s.split_size in
    let (inner, size) = split_at_checked-eq-some s.size s.tail s.split_value in
    let four = All-append_left IsByte s.prefix s.tail (rw whole at bytes) in
    let (shown, fits) = to_be_bytes-from_be_bytes s.prefix four s.read_size in
    let framed : to_be_bytes (saturated (length value)) ≡ s.prefix =
      ap to_be_bytes (saturated_fits (length value) (rw (← size) at fits) ∙ size) ∙ shown in
    whole ∙ ap (λ t. s.prefix ++ t) inner ∙ rw framed (sym (append_assoc s.prefix value rest))

pub take_header-put_header : (rest : Bytes) → take_header (put_header [] ++ rest) ≡ ok rest
unfolding take_header put_header magic text_eq
take_header-put_header rest = rw (split_at_checked-append (put_header []) rest)

header_eq :
    (header : Bytes)
    → length header ≡ 9
    → text_eq (take 8 header) magic ≡ true
    → (header_version (drop 8 header) == state_version) ≡ true
    → header ≡ magic ++ 1 ∷ []
header_eq header size m v =
    let last : drop 8 header ≡ 1 ∷ [] =
      one (drop 8 header) (ground (arith, length-drop 8 header)) v in
    sym (take-append-drop 8 header) ∙ rw last (ap (λ t. t ++ 1 ∷ []) ((text_eq_iff _ _).0 m))
  where
    one : (l : Bytes) → length l ≡ 1 → (header_version l == state_version) ≡ true → l ≡ 1 ∷ []
    one [] e k = cc
    one (b ∷ []) e k = ground arith
    one (b ∷ c ∷ l) e k = absurd (omega arith)

header_checks :
    (header tail : Bytes) {rest : Bytes}
    → (do
      refuse_if
          (not (text_eq (take (length magic) header) magic))
          (group "not a Leave session state")
      refuse_if
          (not (header_version (drop (length magic) header) == state_version))
          (group "saved session uses an unsupported state version")
      ok tail)
      ≡ ok rest
    → (text_eq (take (length magic) header) magic ≡ true)
      × ((header_version (drop (length magic) header) == state_version) ≡ true)
      × (tail ≡ rest)
header_checks header tail h = ground arith

-- A saved state is taken up exactly when it begins with the eight magic bytes and version 1, and
-- the cursor then stands behind those nine bytes.
pub take_header_iff :
    (cursor rest : Bytes) → (take_header cursor ≡ ok rest) ↔ (cursor ≡ put_header [] ++ rest)
unfolding put_header take_header magic
take_header_iff cursor rest = (to, λ e. rw e (take_header-put_header rest))
  where
    to : take_header cursor ≡ ok rest → cursor ≡ put_header [] ++ rest
    to h =
        let ((header, tail), got, h1) =
          >>=-eq-ok (ok_or (split_at_checked (length magic + 1) cursor) _) _ h in
        let (whole, size) =
          split_at_checked-eq-some (length magic + 1) cursor (ok_or-eq-ok _ _ got) in
        let (named, versioned, same) = header_checks header tail h1 in
        whole ∙ rw same (ap (λ t. t ++ rest) (header_eq header size named versioned))
