-- ===== src/TempFiles/Sweep.antt =====
-- audio/processing/tempfile_manager.go: what a clean-up removes, from the map and from the disk.
use dabri.Prelude.{
  ℕ, ◌≡◌, ◌↔◌, ◌∙◌, ap, Bool, false, not, ◌&&◌, ◌||◌, List, [], ◌∷◌, arith, Elem, inl, inr,
  Bool-cases,
}
use dabri.Text.{Text, text_eq, text_eq_iff}
use dabri.TempFiles.{TempFileManager, unlink, is_old, sweep, cleanup_old_files}

-- The path is tracked with a time that is old.
abbrev is_due : (ℕ → Bool) → Text → List (Text × ℕ) → Bool
is_due old path [] = false
is_due old path ((p, time) ∷ rest) = text_eq path p && old time || is_due old path rest

module _ (removes : Text → Bool) (old : ℕ → Bool) where
  sweep-kept :
      (path : Text) (time : ℕ) (files : List (Text × ℕ)) (disk : Text → Bool)
      → Elem (path, time) (sweep removes old files disk).0
        ↔ (Elem (path, time) files × (old time ≡ false))
  unfolding sweep
  sweep-kept path time [] disk = (λ e. absurd e, λ (e, h). absurd e)
  sweep-kept path time ((p, t) ∷ files) disk = elim (Bool-cases (old t)) [
    | inl e ↦
        let i = sweep-kept path time files (unlink removes p disk) in
        rw e (
          (λ m. (inr (i.0 m).0, (i.0 m).1)),
          (λ (m, o). elim m [
            | inl q ↦ absurd (cc (e, o, ap (λ (x : Text × ℕ). old x.1) q))
            | inr f ↦ i.1 (f, o)
          ]),
        )
    | inr e ↦
        let i = sweep-kept path time files disk in
        rw e (
          (λ m. elim m [
            | inl q ↦ (inl q, ap (λ (x : Text × ℕ). old x.1) q ∙ e)
            | inr f ↦ (inr (i.0 f).0, (i.0 f).1)
          ]),
          (λ (m, o). elim m [ inl q ↦ inl q | inr f ↦ inr (i.1 (f, o)) ]),
        )
  ]

  sweep-disk :
      (path : Text) (files : List (Text × ℕ)) (disk : Text → Bool)
      → (sweep removes old files disk).1 path
        ≡ (disk path && not (is_due old path files && removes path))
  unfolding sweep unlink
  sweep-disk path [] disk = ground arith
  sweep-disk path ((p, t) ∷ files) disk = ground (
    arith,
    text_eq_iff path p,
    sweep-disk path files (unlink removes p disk),
    sweep-disk path files disk,
  )

-- A clean-up of the old files keeps exactly the tracked files that are not old, with their times, and
-- removes from the disk exactly the paths that are tracked as old and can be removed.
cleanup-sweep :
    (removes : Text → Bool) (now : ℕ) (t : TempFileManager) (path : Text) (time : ℕ)
    → (Elem (path, time) (cleanup_old_files removes now t).temp_files
        ↔ (Elem (path, time) t.temp_files × (is_old t.cleanup_timeout now time ≡ false)))
      × ((cleanup_old_files removes now t).disk path ≡ (
          t.disk path
          && not (is_due (is_old t.cleanup_timeout now) path t.temp_files && removes path)))
unfolding cleanup_old_files
cleanup-sweep removes now t path time = (
  sweep-kept removes (is_old t.cleanup_timeout now) path time t.temp_files t.disk,
  sweep-disk removes (is_old t.cleanup_timeout now) path t.temp_files t.disk,
)
