-- ===== src/Stt/Download/Atomic.antt =====
-- stt/providers/model_downloader.go: what a download leaves at each path.
use dabri.Stt.Download.{
  tmp_path, Transfer, download, Files, download_to_file, DownloadError, install, absent, file,
  remove, put,
}
use dabri.Prelude.{◌≡◌, refl, arith, true, false, Option, none, some, ltb, ◌++◌, ◌∷◌, [], ℕ}
use dabri.Text.{Text, text_eq, text_eq_refl}

longer-distinct : (s : Text) (c : ℕ) (t : Text) → text_eq s (s ++ c ∷ t) ≡ false
unfolding text_eq
longer-distinct [] c t = refl
longer-distinct (a ∷ s) c t = ground (arith, longer-distinct s c t)

tmp-distinct : (dest : Text) → text_eq dest (tmp_path dest) ≡ false
tmp-distinct dest = longer-distinct dest b'.' _

-- The destination is as it was after an error, and otherwise holds a complete transfer of at least
-- the least size.
abbrev pub IsWhole : Transfer → ℕ → Text → Files → Files × Option DownloadError → Type 0
IsWhole net min_size dest files (files', some e) = files' dest ≡ files dest
IsWhole net min_size dest files (files', none) =
    (files' dest ≡ file net.received) × (net.completes ≡ true) × (ltb net.received min_size ≡ false)

pub download-IsWhole :
    (net : Transfer) (min_size : ℕ) (dest : Text) (files : Files)
    → IsWhole net min_size dest files (download net min_size dest files)
unfolding download download_to_file install remove put
download-IsWhole net min_size dest files =
    ground (arith, tmp-distinct dest, text_eq_refl dest, text_eq_refl (tmp_path dest))

download-elsewhere :
    (net : Transfer) (min_size : ℕ) (dest : Text) (files : Files) (path : Text)
    → text_eq path dest ≡ false
    → text_eq path (tmp_path dest) ≡ false
    → (download net min_size dest files).0 path ≡ files path
unfolding download download_to_file install remove put
download-elsewhere net min_size dest files path h k = ground (arith, h, k)

text_eq_sym : (s t : Text) → text_eq s t ≡ false → text_eq t s ≡ false
unfolding text_eq
text_eq_sym [] [] h = h
text_eq_sym [] (b ∷ t) h = refl
text_eq_sym (a ∷ s) [] h = refl
text_eq_sym (a ∷ s) (b ∷ t) h = ground (arith, h, text_eq_sym s t)

download-tmp :
    (net : Transfer) (min_size : ℕ) (dest : Text) (files : Files)
    → net.makes_dir ≡ true
    → net.removes ≡ true
    → (download net min_size dest files).0 (tmp_path dest) ≡ absent
unfolding download download_to_file install remove put
download-tmp net min_size dest files h k = ground (
  arith,
  h,
  k,
  text_eq_sym dest (tmp_path dest) (tmp-distinct dest),
  text_eq_refl (tmp_path dest),
)

-- Where the directory can be made and files can be removed, a download either fails and leaves the
-- destination as it was, or puts a complete transfer there whose size is at least the least one; no
-- temporary file is left, and a path that is neither the destination nor the temporary one is as it
-- was.
pub download-atomic :
    (net : Transfer) (min_size : ℕ) (dest : Text) (files : Files) (path : Text)
    → net.makes_dir ≡ true
    → net.removes ≡ true
    → text_eq path dest ≡ false
    → text_eq path (tmp_path dest) ≡ false
    → IsWhole net min_size dest files (download net min_size dest files)
      × ((download net min_size dest files).0 (tmp_path dest) ≡ absent)
      × ((download net min_size dest files).0 path ≡ files path)
download-atomic net min_size dest files path d r h k = (
  download-IsWhole net min_size dest files,
  download-tmp net min_size dest files d r,
  download-elsewhere net min_size dest files path h k,
)
