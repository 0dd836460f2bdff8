-- ===== src/Files/Replace.antt =====
-- How the temporary file of a write takes the place of the path.
use leave_cli.Prelude.{ℕ, ◌≡◌, refl, ap, ◌∙◌, Option, none, some, Result, ok, err}
use leave_cli.Crypto.Error.{Bytes}
use leave_cli.Crypto.Primitives.{Primitives}
use leave_cli.Files.{
  FilePath, GuardedFsError, Disk, io, set_permissions_if, or_discard, replace_file,
}

module _ {D : Type 0} (p : Primitives) (disk : Disk D) where
  -- The temporary file got the permissions and the content, and was put in the place of the path
  -- after others had their turn.
  pub record IsReplaced (before after : D) (path : FilePath) (mode : Option ℕ) (content : Bytes)
      (uncommitted : D → D) : Type 0 where
    pub opened : D
    pub permitted : D
    pub filled : D
    pub is_opened : disk.open_atomic before path ≡ some opened
    pub is_permitted : set_permissions_if p disk opened path mode ≡ some permitted
    pub is_filled : disk.write_all permitted path content ≡ some filled
    pub is_committed : disk.commit (uncommitted filled) path ≡ some after

  -- A step of the temporary file that did not fail.
  not_discarded :
      (before after : D) (path : FilePath) (o : Option D)
      (next : D → Result GuardedFsError (Unit {0}) × D)
      → or_discard p disk before path o next ≡ (ok tt, after)
      → (d : D) × (o ≡ some d) × (next d ≡ (ok tt, after))
  not_discarded before after path none next h = cc (ap (λ x. x.0) h)
  not_discarded before after path (some d) next h = (d, refl, h)

  pub replace_file-IsReplaced :
      (d after : D) (path : FilePath) (mode : Option ℕ) (content : Bytes) (uncommitted : D → D)
      → replace_file p disk d path mode content uncommitted ≡ (ok tt, after)
      → IsReplaced d after path mode content uncommitted
  unfolding replace_file
  replace_file-IsReplaced d after path mode content uncommitted h =
      go (disk.open_atomic d path) refl h
    where
      go :
          (o : Option D)
          → disk.open_atomic d path ≡ o
          → ◌≡◌ {A = Result GuardedFsError (Unit {0}) × D}
              (elim o [
                | none ↦ (err io, d)
                | some opened ↦
                    or_discard p disk opened path
                      (set_permissions_if p disk opened path mode)
                      λ permitted.
                        or_discard p disk permitted path
                          (disk.write_all permitted path content)
                          λ filled.
                            or_discard p disk
                              (uncommitted filled)
                              path
                              (disk.commit (uncommitted filled) path)
                              λ committed. (ok tt, committed)
              ])
              (ok tt, after)
          → IsReplaced d after path mode content uncommitted
      go none e k = cc (ap (λ x. x.0) k)
      go (some opened) e k =
          let (permitted, e1, k1) = not_discarded opened after path _ _ k in
          let (filled, e2, k2) = not_discarded permitted after path _ _ k1 in
          let (committed, e3, k3) = not_discarded (uncommitted filled) after path _ _ k2 in
          record {
            opened = opened;
            permitted = permitted;
            filled = filled;
            is_opened = e;
            is_permitted = e1;
            is_filled = e2;
            is_committed = e3 ∙ ap (λ x. some x.1) k3;
          }
