-- ===== src/Files/Tests.antt =====
-- The theorems at concrete inputs.
use leave_cli.Prelude.{◌≡◌, refl, true, some, [], ◌∷◌, ◌++◌, ok}
use leave_cli.Prelude.Text.{Text, codes, text_eq, split, contains, starts_with}
use leave_cli.Crypto.Error.{Bytes}
use leave_cli.Crypto.Sample.{sample}
use leave_cli.Crypto.Vault.{subtle_eq}
use leave_cli.Relay.Routes.{hex}
use leave_cli.Files.{
  FilePath, Disk, Others, bytes_read, components, replace_file, FileSnapshot, crlf,
  validate_relative, is_within, split_last, resolve_existing, resolve_for_write, has_crlf, to_lf,
  to_crlf, preserve_line_endings, detect_line_ending, content_hash, contents, or_nothing,
  write_task, write_text,
}
use leave_cli.Files.Resolve.{resolve_for_write-within}
use leave_cli.Files.Write.{IsWritten, write_text_lem}

-- A disk with one file, which is its content; there are no links.
abbrev one_file : Disk Bytes
one_file = record {
  canonicalize = λ d path. some path;
  exists_unfollowed = λ d path. true;
  read = λ d path. bytes_read d;
  mode = λ d path. some 420;
  open_atomic = λ d path. some d;
  set_permissions = λ d path mode. some d;
  write_all = λ d path content. some content;
  commit = λ d path. some d;
  discard = λ d path. d;
  is_utf8 = λ s. true;
}

abbrev root : FilePath
root = codes "w" ∷ []

abbrev file : FilePath
file = codes "w" ∷ codes "a" ∷ []

abbrev old : Bytes
old = b'x' ∷ 13 ∷ 10 ∷ []

run : Unit {0}
unfolding codes text_eq split contains starts_with subtle_eq hex validate_relative is_within
    split_last resolve_existing resolve_for_write has_crlf to_lf to_crlf preserve_line_endings
    detect_line_ending replace_file write_task write_text
run = tt

resolve_for_write-within_example :
    ((parent : FilePath) × (name : Text) × (directory : FilePath) × (split_last
          (components (codes "a"))
        ≡ some (parent, name))
      × (one_file.canonicalize old (root ++ parent) ≡ some directory)
      × (is_within directory root ≡ true)
      × (file ≡ directory ++ name ∷ []))
    × (is_within file root ≡ true)
    × (one_file.exists_unfollowed old file ≡ true → one_file.canonicalize old file ≡ some file)
unfolding run
resolve_for_write-within_example = resolve_for_write-within one_file old root (codes "a") file refl

abbrev nobody : Others Bytes
nobody = record {
  resolved = λ d. d;
  checked = λ d. d;
  spawned = λ d. d;
  compared = λ d. d;
  uncommitted = λ d. d;
  committed = λ d. d;
}

abbrev made : FileSnapshot
made = record {
  content = b'y' ∷ 13 ∷ 10 ∷ [];
  hash = content_hash sample (b'y' ∷ 13 ∷ 10 ∷ []);
  size = 3;
  line_ending = crlf;
  mode = some 420;
}

write_text_lem_example :
    (path : FilePath) × (resolve_for_write one_file old root (codes "a") ≡ ok path)
    × (content_hash sample (or_nothing (contents (one_file.read old path)))
        ≡ content_hash sample old)
    × (made.content ≡ preserve_line_endings (contents (one_file.read old path)) (b'y' ∷ 10 ∷ []))
    × ((committed : Bytes) × (b'y' ∷ 13 ∷ 10 ∷ [] ≡ committed)
        × IsWritten sample one_file old committed path
            (content_hash sample old)
            (one_file.mode old path)
            made.content
            nobody)
unfolding run
write_text_lem_example =
    write_text_lem sample one_file old (b'y' ∷ 13 ∷ 10 ∷ []) root (codes "a")
      (content_hash sample old) (b'y' ∷ 10 ∷ []) nobody made refl
