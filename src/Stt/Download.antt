-- ===== src/Stt/Download.antt =====
-- stt/providers/model_downloader.go: a download by way of a temporary file.
pub mod Atomic
use dabri.Stt.{Files, Node, put, file, remove, absent}
use dabri.Prelude.{ℕ, Bool, true, false, not, Option, none, some, if◌then◌else◌, ltb, ◌==◌, ◌++◌}
use dabri.Text.{Text, codes}

-- What a download meets. `reply` is the status of the response, `none` for a request that fails;
-- `received` counts the bytes that were written and `completes` is that the copy ended without an
-- error. Progress reports are left out.
pub record Transfer : Type 0 where
  pub makes_dir : Bool
  pub reply : Option ℕ
  pub creates : Bool
  pub received : ℕ
  pub completes : Bool
  pub stats : Bool
  pub renames : Bool
  pub removes : Bool

pub data DownloadError : Type 0 where
  no_directory no_response no_file not_written not_found not_moved : DownloadError
  http_status : ℕ → DownloadError
  too_small : ℕ → DownloadError

abbrev pub tmp_path : Text → Text
tmp_path dest = dest ++ codes ".tmp"

unfoldable pub download_to_file : Transfer → Text → Files → Files × Option DownloadError
download_to_file net path files = elim net.reply [
  | none ↦ (files, some no_response)
  | some status ↦
      if not (status == 200)
      then (files, some (http_status status))
      else if not net.creates
      then (files, some no_file)
      else let files' = put path (file net.received) files in
        if net.completes then (files', none) else (files', some not_written)
]

-- The size that os.Stat reports of a file.
abbrev pub size_of : Node → Option ℕ
size_of (file n) = some n
size_of _ = none

-- The part of `Download` behind the transfer, which has written a file at the temporary path.
pub install : Transfer → ℕ → Text → Files → Files × Option DownloadError
install net min_size dest files =
    let tmp = tmp_path dest in
    elim (if net.stats then size_of (files tmp) else none) [
      | none ↦ (remove net.removes tmp files, some not_found)
      | some size ↦
          if ltb size min_size
          then (remove net.removes tmp files, some (too_small size))
          else if not net.renames
          then (remove net.removes tmp files, some not_moved)
          else (put dest (files tmp) (put tmp absent files), none)
    ]

unfoldable pub download : Transfer → ℕ → Text → Files → Files × Option DownloadError
download net min_size dest files =
    if not net.makes_dir
    then (files, some no_directory)
    else let (files', e) = download_to_file net (tmp_path dest) files in
      elim e [
        | some err ↦ (remove net.removes (tmp_path dest) files', some err)
        | none ↦ install net min_size dest files'
      ]
