-- ===== src/Files/Resolve.antt =====
-- Where a resolved path can lie.
use leave_cli.Prelude.{
  ◌≡◌, refl, sym, ap, ◌∙◌, Bool, true, false, not, ◌&&◌, Option, none, some, [], ◌∷◌, ◌++◌, Result,
  ok, ok_or, refuse_if, ◌>>=◌, >>=-eq-ok, arith, if◌then◌else◌,
}
use mathlib.Core.Path.{subst}
use leave_cli.Prelude.Text.{Text, text_eq, text_eq_iff}
use leave_cli.Files.{
  FilePath, GuardedFsError, Disk, is_within, validate_relative, split_last, components, unlinked,
  check_candidate, resolve_existing, resolve_for_write, io, symlink_write_denied,
}

is_within-append :
    (path rest root : FilePath) → is_within path root ≡ true → is_within (path ++ rest) root ≡ true
unfolding is_within
is_within-append path rest [] h = refl
is_within-append [] rest (r ∷ root) h = cc
is_within-append (c ∷ path) rest (r ∷ root) h = ground (arith, is_within-append path rest root)

is_within-antisym : (a b : FilePath) → is_within a b ≡ true → is_within b a ≡ true → a ≡ b
unfolding is_within
is_within-antisym [] [] h k = refl
is_within-antisym [] (y ∷ b) h k = cc
is_within-antisym (x ∷ a) [] h k = cc
is_within-antisym (x ∷ a) (y ∷ b) h k =
    let (head, tail) = split_and (text_eq x y) (is_within a b) h in
    let (head', tail') = split_and (text_eq y x) (is_within b a) k in
    let rest = is_within-antisym a b tail tail' in cc (rest, (text_eq_iff x y).0 head)
  where
    split_and : (p q : Bool) → (p && q) ≡ true → (p ≡ true) × (q ≡ true)
    split_and true q h = (refl, h)
    split_and false q h = cc

refused : {E : Type 0} (b : Bool) (e : E) {u : Unit {0}} → refuse_if (not b) e ≡ ok u → b ≡ true
refused true e h = refl
refused false e h = cc

ok_or-eq-ok : {E A : Type 0} (o : Option A) (e : E) {a : A} → ok_or o e ≡ ok a → o ≡ some a
ok_or-eq-ok none e h = cc
ok_or-eq-ok (some a) e h = cc

module _ {D : Type 0} (disk : Disk D) (d : D) (root : FilePath) where
  unlinked-same :
      (candidate canonical : FilePath)
      → unlinked disk root candidate canonical ≡ true
      → canonical ≡ candidate
  unlinked-same candidate canonical h =
      let (a, b) = parts (is_within canonical root) _ _ h in
      is_within-antisym canonical candidate a b
    where
      parts : (p q r : Bool) → (p && q && r) ≡ true → (q ≡ true) × (r ≡ true)
      parts true true r h = (refl, h)
      parts true false r h = cc
      parts false q r h = cc

  checked :
      (candidate path : FilePath)
      → check_candidate disk d root candidate ≡ ok path
      → (path ≡ candidate)
        × (disk.exists_unfollowed d candidate ≡ true
            → disk.canonicalize d candidate ≡ some candidate)
  checked candidate path h = tested (disk.exists_unfollowed d candidate) refl h
    where
      linked :
          (c : FilePath) (b : Bool)
          → unlinked disk root candidate c ≡ b
          → disk.canonicalize d candidate ≡ some c
          → (refuse_if (not b) symlink_write_denied >>= λ _. ok candidate) ≡ ok path
          → (path ≡ candidate) × (disk.canonicalize d candidate ≡ some candidate)
      linked c true good found h = (cc h, found ∙ ap some (unlinked-same candidate c good))
      linked c false bad found h = cc h

      followed :
          (o : Option FilePath)
          → disk.canonicalize d candidate ≡ o
          → (ok_or o io >>= λ c.
              refuse_if (not (unlinked disk root candidate c)) symlink_write_denied >>= λ _.
              ok candidate)
            ≡ ok path
          → (path ≡ candidate) × (disk.canonicalize d candidate ≡ some candidate)
      followed none found h = cc h
      followed (some c) found h = linked c (unlinked disk root candidate c) refl found h

      tested :
          (b : Bool)
          → disk.exists_unfollowed d candidate ≡ b
          → (if b
              then (ok_or (disk.canonicalize d candidate) io >>= λ c.
                  refuse_if (not (unlinked disk root candidate c)) symlink_write_denied >>= λ _.
                  ok candidate)
              else ok candidate)
            ≡ ok path
          → (path ≡ candidate)
            × (disk.exists_unfollowed d candidate ≡ true
                → disk.canonicalize d candidate ≡ some candidate)
      tested false absent h = (cc h, λ there. cc (absent, there))
      tested true there h =
          let (same, real) = followed (disk.canonicalize d candidate) refl h in (same, λ _. real)

  -- A path that is opened for reading lies in the workspace, and is where the whole way leads once
  -- every link on it is followed.
  pub resolve_existing-within :
      (relative : Text) (path : FilePath)
      → resolve_existing disk d root relative ≡ ok path
      → (is_within path root ≡ true)
        × (disk.canonicalize d (root ++ components relative) ≡ some path)
  unfolding resolve_existing
  resolve_existing-within relative path h =
      let (_, valid, h1) = >>=-eq-ok (validate_relative relative) _ h in
      let (canonical, found, h2) = >>=-eq-ok (ok_or _ _) _ h1 in
      let (_, within, h3) = >>=-eq-ok (refuse_if (not (is_within canonical root)) _) _ h2 in
      let same = ok_injective h3 in
      (
        ap (λ c. is_within c root) (sym same) ∙ refused _ _ within,
        ok_or-eq-ok _ _ found ∙ ap some same,
      )
    where
      ok_injective :
          {a b : FilePath} → ◌≡◌ {A = Result GuardedFsError FilePath} (ok a) (ok b) → a ≡ b
      ok_injective h = cc

  -- A path that is written is the file name of the request in the directory that the request's
  -- parent leads to once every link is followed, and that directory lies in the workspace, and so
  -- does the path; and if something is there already, it is not reached through a link.
  pub resolve_for_write-within :
      (relative : Text) (path : FilePath)
      → resolve_for_write disk d root relative ≡ ok path
      → ((parent : FilePath) × (name : Text) × (directory : FilePath) × (split_last
              (components relative)
            ≡ some (parent, name))
          × (disk.canonicalize d (root ++ parent) ≡ some directory)
          × (is_within directory root ≡ true)
          × (path ≡ directory ++ name ∷ []))
        × (is_within path root ≡ true)
        × (disk.exists_unfollowed d path ≡ true → disk.canonicalize d path ≡ some path)
  unfolding resolve_for_write
  resolve_for_write-within relative path h =
      let (_, valid, h1) = >>=-eq-ok (validate_relative relative) _ h in
      let ((parent, name), last, h2) =
        >>=-eq-ok (ok_or (split_last (components relative)) _) _ h1 in
      let (directory, found, h3) =
        >>=-eq-ok (ok_or (disk.canonicalize d (root ++ parent)) _) _ h2 in
      let (_, within, h4) = >>=-eq-ok (refuse_if (not (is_within directory root)) _) _ h3 in
      let (same, unlinked) = checked (directory ++ name ∷ []) path h4 in
      (
        (
          parent,
          name,
          directory,
          ok_or-eq-ok _ _ last,
          ok_or-eq-ok _ _ found,
          refused _ _ within,
          same,
        ),
        ap (λ c. is_within c root) same
            ∙ is_within-append directory (name ∷ []) root (refused _ _ within),
        subst (λ c. disk.exists_unfollowed d c ≡ true → disk.canonicalize d c ≡ some c) (sym same)
            unlinked,
      )
