-- ===== src/Mailstore/Invariant/Files.antt =====
-- What the blob operations do to the files of the messages that stay.
use cloudpost.Prelude.{All, List, [], arith, refl, ℕ, ◌+◌, ◌∙◌, ◌∷◌, ◌≡◌, ◌≢◌}
use cloudpost.Text.{Text}
use cloudpost.Mailstore.Folders.{remove_blobs}
use cloudpost.Mailstore.Invariant.{Stored}
use cloudpost.Mailstore.Schema.{Message, read_file, remove_file}

pub read_file-remove :
    (p q : ℕ) (files : List (ℕ × Text))
    → p ≢ q
    → read_file p (remove_file q files) ≡ read_file p files
unfolding read_file remove_file
read_file-remove p q [] ne = refl
read_file-remove p q ((r, raw) ∷ files) ne = ground (arith, read_file-remove p q files)

pub read_file-remove_blobs :
    (p : ℕ) (ms : List Message) (files : List (ℕ × Text))
    → All (λ m. p ≢ m.raw_path) ms
    → read_file p (remove_blobs ms files) ≡ read_file p files
unfolding remove_blobs
read_file-remove_blobs p [] files h = refl
read_file-remove_blobs p (m ∷ ms) files h =
    read_file-remove_blobs p ms (remove_file m.raw_path files) h.1
    ∙ read_file-remove p m.raw_path files h.0

pub Stored-later :
    {ids names : ℕ} {files : List (ℕ × Text)} (m : Message)
    → Stored ids names files m
    → Stored ids (names + 1) files m
Stored-later m h = record {
  id_below = h.id_below;
  path_below = omega arith;
  raw = h.raw;
  file = h.file;
}

pub Stored-write :
    {ids names : ℕ} {files : List (ℕ × Text)} (raw : Text) (m : Message)
    → Stored ids names files m
    → Stored ids (names + 1) ((names, raw) ∷ files) m
unfolding read_file
Stored-write raw m h = record {
  id_below = h.id_below;
  path_below = omega arith;
  raw = h.raw;
  file = ground (arith, h.path_below, h.file);
}

pub Stored-counted :
    {ids names : ℕ} {files : List (ℕ × Text)} (m : Message)
    → Stored ids names files m
    → Stored (ids + 1) names files m
Stored-counted m h = record {
  id_below = omega arith;
  path_below = h.path_below;
  raw = h.raw;
  file = h.file;
}
