-- ===== src/Files.antt =====
-- crates/leave-core/src/guarded_fs.rs: reading and writing text inside one workspace, for the rules
-- of Unix paths. A canonical path is the list of its components. The file system is of the
-- operating system: `Disk D` names the calls that the source makes of it, for any type `D` of disks.
pub mod Resolve
mod Replace
pub mod Write
mod Tests
use leave_cli.Prelude.{
  ℕ, ◌*◌, Bool, true, false, not, ◌&&◌, ◌||◌, Option, none, some, List, [], ◌∷◌, ◌++◌, Result, ok,
  err, ok_or, refuse_if, ◌>>=◌, ◌>>◌, ltb, ◌==◌, any, keep, length, is_some, if◌then◌else◌,
}
use leave_cli.Prelude.Text.{Text, codes, text_eq, is_empty, split, contains}
use leave_cli.Crypto.Error.{Bytes}
use leave_cli.Crypto.Primitives.{Primitives}
use leave_cli.Crypto.Vault.{subtle_eq}
use leave_cli.Relay.Routes.{hex}

abbrev pub FilePath : Type 0
FilePath = List Text

pub data GuardedFsError : Type 0 where
  invalid_path not_directory outside_workspace symlink_write_denied not_utf8 too_large io :
      GuardedFsError
  conflict : Text → GuardedFsError

pub data ReadOutcome : Type 0 where
  bytes_read : Bytes → ReadOutcome
  not_found read_failed : ReadOutcome

pub record Disk (D : Type 0) : Type 0 where
  -- `fs::canonicalize`.
  pub canonicalize : D → FilePath → Option FilePath
  -- `fs::symlink_metadata(..).is_ok()`.
  pub exists_unfollowed : D → FilePath → Bool
  pub read : D → FilePath → ReadOutcome
  -- `fs::metadata(..)`: the permission bits.
  pub mode : D → FilePath → Option ℕ
  -- `AtomicWriteFile`: a temporary file beside the path, what it is given, and the renaming over the
  -- path; `discard` is what dropping one that was not committed does.
  pub open_atomic : D → FilePath → Option D
  pub set_permissions : D → FilePath → ℕ → Option D
  pub write_all : D → FilePath → Bytes → Option D
  pub commit : D → FilePath → Option D
  pub discard : D → FilePath → D
  pub is_utf8 : Bytes → Bool

-- The normal components: empty ones and `.` disappear.
abbrev pub components : Text → FilePath
components path = keep (λ c. not (is_empty c || text_eq c (codes "."))) (split b'/' path)

abbrev pub is_absolute : Text → Bool
is_absolute [] = false
is_absolute (b ∷ rest) = b == b'/'

unfoldable pub validate_relative : Text → Result GuardedFsError (Unit {0})
validate_relative path = do
  refuse_if (is_empty path || is_absolute path) invalid_path
  refuse_if (any (text_eq (codes "..")) (components path)) outside_workspace
  ok tt

-- `Path::starts_with`, the path first.
unfoldable pub is_within : FilePath → FilePath → Bool
is_within path [] = true
is_within [] (r ∷ root) = false
is_within (c ∷ path) (r ∷ root) = text_eq c r && is_within path root

-- The parent and the file name.
unfoldable pub split_last : FilePath → Option (FilePath × Text)
split_last [] = none
split_last (c ∷ path) = elim (split_last path) [
  | none ↦ some ([], c)
  | some (parent, name) ↦ some (c ∷ parent, name)
]

module _ {D : Type 0} (disk : Disk D) where
  unfoldable pub resolve_existing : D → FilePath → Text → Result GuardedFsError FilePath
  resolve_existing d root relative = do
    validate_relative relative
    canonical ← ok_or (disk.canonicalize d (root ++ components relative)) io
    refuse_if (not (is_within canonical root)) outside_workspace
    ok canonical

  abbrev pub unlinked : FilePath → FilePath → FilePath → Bool
  unlinked root candidate canonical =
      is_within canonical root && is_within canonical candidate && is_within candidate canonical

  -- What `resolve_for_write` checks of a candidate that exists.
  abbrev pub check_candidate : D → FilePath → FilePath → Result GuardedFsError FilePath
  check_candidate d root candidate =
      if disk.exists_unfollowed d candidate
      then (do
        canonical ← ok_or (disk.canonicalize d candidate) io
        refuse_if (not (unlinked root candidate canonical)) symlink_write_denied
        ok candidate)
      else ok candidate

  unfoldable pub resolve_for_write : D → FilePath → Text → Result GuardedFsError FilePath
  resolve_for_write d root relative = do
    validate_relative relative
    (parent, name) ← ok_or (split_last (components relative)) invalid_path
    canonical_parent ← ok_or (disk.canonicalize d (root ++ parent)) io
    refuse_if (not (is_within canonical_parent root)) outside_workspace
    check_candidate d root (canonical_parent ++ name ∷ [])

pub data LineEnding : Type 0 where
  lf crlf : LineEnding

pub record FileSnapshot : Type 0 where
  pub content : Text
  pub hash : Text
  pub size : ℕ
  pub line_ending : LineEnding
  pub mode : Option ℕ

abbrev carriage_return : ℕ
carriage_return = 13

abbrev line_feed : ℕ
line_feed = 10

-- `windows(2).any(|pair| pair == b"\r\n")`.
unfoldable pub has_crlf : Bytes → Bool
has_crlf s = contains s (carriage_return ∷ line_feed ∷ [])

-- `replace("\r\n", "\n")`.
unfoldable pub to_lf : Text → Text
to_lf [] = []
to_lf (a ∷ []) = a ∷ []
to_lf (a ∷ b ∷ s) =
    let from_here = to_lf (b ∷ s) in
    if a == carriage_return && b == line_feed then from_here else a ∷ from_here

-- `replace('\n', "\r\n")`.
unfoldable pub to_crlf : Text → Text
to_crlf [] = []
to_crlf (a ∷ s) = if a == line_feed then carriage_return ∷ line_feed ∷ to_crlf s else a ∷ to_crlf s

unfoldable pub preserve_line_endings : Option Bytes → Text → Text
preserve_line_endings none content = to_lf content
preserve_line_endings (some existing) content =
    if has_crlf existing then to_crlf (to_lf content) else to_lf content

unfoldable pub detect_line_ending : Bytes → LineEnding
detect_line_ending s = if has_crlf s then crlf else lf

-- `content_hash(..).to_hex()`.
abbrev pub content_hash : Primitives → Bytes → Text
content_hash p s = hex (p.hash s)

abbrev pub contents : ReadOutcome → Option Bytes
contents (bytes_read s) = some s
contents _ = none

abbrev or_nothing : Option Bytes → Bytes
or_nothing none = []
or_nothing (some s) = s

-- What other programs do to the disk while a text is written: behind each access of `write_text`,
-- behind the comparison of the writing task, before its commit and after it.
pub record Others (D : Type 0) : Type 0 where
  pub resolved : D → D
  pub checked : D → D
  pub spawned : D → D
  pub compared : D → D
  pub uncommitted : D → D
  pub committed : D → D

module _ {D : Type 0} (p : Primitives) (disk : Disk D) where
  abbrev pub snapshot : D → FilePath → Text → FileSnapshot
  snapshot d path content = record {
    content = content;
    hash = content_hash p content;
    size = length content;
    line_ending = detect_line_ending content;
    mode = disk.mode d path;
  }

  unfoldable pub read_text : D → FilePath → Text → Result GuardedFsError FileSnapshot
  read_text d root relative = do
    path ← resolve_existing disk d root relative
    content ← ok_or (contents (disk.read d path)) io
    refuse_if (ltb (2 * 1024 * 1024) (length content)) too_large
    refuse_if (not (disk.is_utf8 content)) not_utf8
    refuse_if (not (is_some (disk.mode d path))) io
    ok (snapshot d path content)

  -- What the writing task reads again: a file that is not there is empty.
  abbrev pub latest : ReadOutcome → Result GuardedFsError Bytes
  latest (bytes_read s) = ok s
  latest not_found = ok []
  latest read_failed = err io

  abbrev pub set_permissions_if : D → FilePath → Option ℕ → Option D
  set_permissions_if d path none = some d
  set_permissions_if d path (some permissions) = disk.set_permissions d path permissions

  -- A step of the temporary file: a failure drops it and ends the task.
  abbrev pub or_discard :
      D
      → FilePath
      → Option D
      → (D → Result GuardedFsError (Unit {0}) × D)
      → Result GuardedFsError (Unit {0}) × D
  or_discard before path none next = (err io, disk.discard before path)
  or_discard before path (some d) next = next d

  -- The temporary file of the task, from `open` to `commit`.
  unfoldable pub replace_file :
      D → FilePath → Option ℕ → Bytes → (D → D) → Result GuardedFsError (Unit {0}) × D
  replace_file d path permissions content uncommitted = elim (disk.open_atomic d path) [
    | none ↦ (err io, d)
    | some opened ↦ or_discard opened path (set_permissions_if opened path permissions) λ permitted.
        or_discard permitted path (disk.write_all permitted path content) λ filled.
          or_discard (uncommitted filled) path (disk.commit (uncommitted filled) path)
            λ committed. (ok tt, committed)
  ]

  -- The writing task: `expected` is the hash that the caller's base had. Others may change the disk
  -- behind the comparison, and again before the commit.
  unfoldable pub write_task :
      D
      → FilePath
      → Text
      → Option ℕ
      → Bytes
      → (D → D)
      → (D → D)
      → Result GuardedFsError (Unit {0}) × D
  write_task d path expected permissions content compared uncommitted =
      elim (latest (disk.read d path)) [
        | err e ↦ (err e, d)
        | ok now ↦
            if not (subtle_eq p (content_hash p now) expected)
            then (err (conflict (content_hash p now)), d)
            else replace_file (compared d) path permissions content uncommitted
      ]

  -- The end of `write_text`, which reads the metadata of the new file.
  abbrev pub written :
      FilePath
      → Text
      → (D → D)
      → Result GuardedFsError (Unit {0}) × D
      → Result GuardedFsError FileSnapshot × D
  written path content ended (err e, d) = (err e, d)
  written path content ended (ok _, d) = (
    if is_some (disk.mode (ended d) path) then ok (snapshot (ended d) path content) else err io,
    ended d,
  )

  -- `write_text` at a resolved path.
  abbrev pub write_at :
      D → FilePath → Text → Text → Others D → Result GuardedFsError FileSnapshot × D
  write_at d path base_hash content others =
      let existing = contents (disk.read d path) in
      let current = content_hash p (or_nothing existing) in
      if not (subtle_eq p current base_hash)
      then (err (conflict current), d)
      else (let normalized = preserve_line_endings existing content in
          let behind = others.checked d in
          written path normalized others.committed (
            write_task (others.spawned behind) path current (disk.mode behind path) normalized
              others.compared others.uncommitted))

  unfoldable pub write_text :
      D → FilePath → Text → Text → Text → Others D → Result GuardedFsError FileSnapshot × D
  unfolding replace_file
  write_text d root relative base_hash content others =
      elim (resolve_for_write disk d root relative) [
        | err e ↦ (err e, d)
        | ok path ↦ write_at (others.resolved d) path base_hash content others
      ]
