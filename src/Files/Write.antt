-- ===== src/Files/Write.antt =====
-- What a write replaces.
use leave_cli.Prelude.{
  ℕ, ◌≡◌, refl, sym, ap, Bool, true, false, not, Option, [], Result, ok, err, is_some,
  if◌then◌else◌,
}
use mathlib.Core.Path.{subst}
use leave_cli.Prelude.Text.{Text}
use leave_cli.Crypto.Error.{Bytes}
use leave_cli.Crypto.Primitives.{Primitives}
use leave_cli.Crypto.Vault.{subtle_eq}
use leave_cli.Crypto.Vault.Laws.{subtle_eq_iff}
use leave_cli.Files.{
  FilePath, GuardedFsError, FileSnapshot, Disk, Others, conflict, io, contents, or_nothing,
  content_hash, preserve_line_endings, resolve_for_write, latest, replace_file, write_task, written,
  write_at, write_text, snapshot,
}
use leave_cli.Files.Replace.{IsReplaced, replace_file-IsReplaced}

module _ {D : Type 0} (p : Primitives) (disk : Disk D) where
  -- The writing task found the expected content when it compared, and then replaced the file.
  pub record IsWritten (before after : D) (path : FilePath) (hash : Text) (mode : Option ℕ)
      (content : Bytes) (others : Others D) : Type 0 where
    pub found : Bytes
    pub was_there : latest p disk (disk.read before path) ≡ ok found
    pub same_hash : content_hash p found ≡ hash
    pub replaced :
        IsReplaced p disk (others.compared before) after path mode content others.uncommitted

  task_writes :
      (d after : D) (path : FilePath) (expected : Text) (mode : Option ℕ) (content : Bytes)
      (others : Others D)
      → write_task p disk d path expected mode content others.compared others.uncommitted
        ≡ (ok tt, after)
      → IsWritten d after path expected mode content others
  unfolding write_task
  task_writes d after path expected mode content others h =
      go (latest p disk (disk.read d path)) refl h
    where
      go :
          (r : Result GuardedFsError Bytes)
          → latest p disk (disk.read d path) ≡ r
          → ◌≡◌ {A = Result GuardedFsError (Unit {0}) × D}
              (elim r [
                | err e ↦ (err e, d)
                | ok now ↦
                    if not (subtle_eq p (content_hash p now) expected)
                    then (err (conflict (content_hash p now)), d)
                    else replace_file p disk
                        (others.compared d)
                        path
                        mode
                        content
                        others.uncommitted
              ])
              (ok tt, after)
          → IsWritten d after path expected mode content others
      go (err e) now k = cc (ap (λ x. x.0) k)
      go (ok s) now k = compared (subtle_eq p (content_hash p s) expected) refl k
        where
          compared :
              (b : Bool)
              → subtle_eq p (content_hash p s) expected ≡ b
              → ◌≡◌ {A = Result GuardedFsError (Unit {0}) × D}
                  (if not b
                    then (err (conflict (content_hash p s)), d)
                    else replace_file p disk
                        (others.compared d)
                        path
                        mode
                        content
                        others.uncommitted)
                  (ok tt, after)
              → IsWritten d after path expected mode content others
          compared false differ e = cc (ap (λ x. x.0) e)
          compared true same e = record {
            found = s;
            was_there = now;
            same_hash = (subtle_eq_iff p _ _).0 same;
            replaced =
                replace_file-IsReplaced p disk (others.compared d) after path mode content
                  others.uncommitted e;
          }

  -- The end of a write: the task ran through, and others had their turn once more.
  ended :
      (path : FilePath) (normalized : Text) (last : D → D) (made : FileSnapshot) (after : D)
      (r : Result GuardedFsError (Unit {0}) × D)
      → written p disk path normalized last r ≡ (ok made, after)
      → (committed : D) × (r ≡ (ok tt, committed))
        × (after ≡ last committed)
        × (made.content ≡ normalized)
  ended path normalized last made after (err f, d) h = cc (ap (λ x. x.0) h)
  ended path normalized last made after (ok _, d) h = tested (is_some (disk.mode (last d) path)) h
    where
      content_of : Result GuardedFsError FileSnapshot → Text
      content_of (ok s) = s.content
      content_of (err f) = []

      tested :
          (b : Bool)
          → ◌≡◌ {A = Result GuardedFsError FileSnapshot × D}
              (if b then ok (snapshot p disk (last d) path normalized) else err io, last d)
              (ok made, after)
          → (committed : D) × (◌≡◌ {A = Result GuardedFsError (Unit {0}) × D}
              (ok tt, d)
              (ok tt, committed))
            × (after ≡ last committed)
            × (made.content ≡ normalized)
      tested true k = (d, refl, sym (ap (λ x. x.1) k), ap (λ x. content_of x.0) (sym k))
      tested false k = cc (ap (λ x. x.0) k)

  -- A write at a path that succeeds, before the path is known to be that of the request.
  write_at_lem :
      (d after : D) (path : FilePath) (base_hash content : Text) (others : Others D)
      (made : FileSnapshot)
      → write_at p disk d path base_hash content others ≡ (ok made, after)
      → (content_hash p (or_nothing (contents (disk.read d path))) ≡ base_hash)
        × (made.content ≡ preserve_line_endings (contents (disk.read d path)) content)
        × ((committed : D) × (after ≡ others.committed committed)
            × IsWritten
                (others.spawned (others.checked d))
                committed
                path
                base_hash
                (disk.mode (others.checked d) path)
                made.content
                others)
  write_at_lem d after path base_hash content others made h =
      compared (subtle_eq p current base_hash) refl h
    where
      current : Text
      current = content_hash p (or_nothing (contents (disk.read d path)))

      normalized : Text
      normalized = preserve_line_endings (contents (disk.read d path)) content

      mode : Option ℕ
      mode = disk.mode (others.checked d) path

      task : Result GuardedFsError (Unit {0}) × D
      task =
          write_task p disk (others.spawned (others.checked d)) path current mode normalized
            others.compared others.uncommitted

      compared :
          (b : Bool)
          → subtle_eq p current base_hash ≡ b
          → ◌≡◌ {A = Result GuardedFsError FileSnapshot × D}
              (if not b
                then (err (conflict current), d)
                else written p disk path normalized others.committed task)
              (ok made, after)
          → (current ≡ base_hash)
            × (made.content ≡ normalized)
            × ((committed : D) × (after ≡ others.committed committed)
                × IsWritten
                    (others.spawned (others.checked d))
                    committed
                    path
                    base_hash
                    mode
                    made.content
                    others)
      compared false differ k = cc (ap (λ x. x.0) k)
      compared true same k =
          let (committed, ran, last, is_content) =
            ended path normalized others.committed made after task k in
          let based = (subtle_eq_iff p current base_hash).0 same in
          let start = others.spawned (others.checked d) in
          (
            based,
            is_content,
            (
              committed,
              last,
              subst (λ c. IsWritten start committed path base_hash mode c others) (sym is_content)
                  (subst (λ c. IsWritten start committed path c mode normalized others) based
                    (task_writes start committed path current mode normalized others ran)),
            ),
          )

  -- A write that succeeds found the caller's base twice: the content under the resolved path had the
  -- hash that the caller gave, when the write was checked and when its task compared again, whatever
  -- other programs did in between. The task then put a file with the caller's content in its place,
  -- with the line endings of what the first check read and the permissions that the path had after that
  -- check, if it had any. What others write between the task's comparison and its commit is not looked
  -- at.
  pub write_text_lem :
      (d after : D) (root : FilePath) (relative base_hash content : Text) (others : Others D)
      (made : FileSnapshot)
      → write_text p disk d root relative base_hash content others ≡ (ok made, after)
      → let first = others.resolved d in
        (path : FilePath) × (resolve_for_write disk d root relative ≡ ok path)
        × (content_hash p (or_nothing (contents (disk.read first path))) ≡ base_hash)
        × (made.content ≡ preserve_line_endings (contents (disk.read first path)) content)
        × ((committed : D) × (after ≡ others.committed committed)
            × IsWritten
                (others.spawned (others.checked first))
                committed
                path
                base_hash
                (disk.mode (others.checked first) path)
                made.content
                others)
  unfolding write_text
  write_text_lem d after root relative base_hash content others made h =
      resolved (resolve_for_write disk d root relative) refl h
    where
      resolved :
          (r : Result GuardedFsError FilePath)
          → resolve_for_write disk d root relative ≡ r
          → ◌≡◌ {A = Result GuardedFsError FileSnapshot × D}
              (elim r [
                | err e ↦ (err e, d)
                | ok path ↦ write_at p disk (others.resolved d) path base_hash content others
              ])
              (ok made, after)
          → let first = others.resolved d in
            (path : FilePath) × (resolve_for_write disk d root relative ≡ ok path)
            × (content_hash p (or_nothing (contents (disk.read first path))) ≡ base_hash)
            × (made.content ≡ preserve_line_endings (contents (disk.read first path)) content)
            × ((committed : D) × (after ≡ others.committed committed)
                × IsWritten
                    (others.spawned (others.checked first))
                    committed
                    path
                    base_hash
                    (disk.mode (others.checked first) path)
                    made.content
                    others)
      resolved (err e) at h = cc (ap (λ x. x.0) h)
      resolved (ok path) at h =
          let (based, is_content, wrote) =
            write_at_lem (others.resolved d) after path base_hash content others made h in
          (path, at, based, is_content, wrote)
