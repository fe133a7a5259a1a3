-- ===== src/Cancellation/Run/Retiring.antt =====
-- What retiring leaves of the markers: src/workspace/cancel.rs.
use enclave.Common.{
  ◌≡◌, ap, subst, ◌∙◌, ◌⊎◌, inl, inr, Bool, true, ◌&&◌, List, [], ◌∷◌, Bool-cases, if_elim, In,
  Text, text_eq, text_eq_iff, text_eq_refl, get_or, get_or-remove, get_or-remove_other, remove,
}
use enclave.Cancellation.{File, missing, unreadable, holds, Files, LockedCommandMarker}
use enclave.Cancellation.Run.{remove_if_same, remove_marker_if_unchanged, retire}
use enclave.Cancellation.Locking.{IsLocked}

module _ (removable : Text → Bool) (can_remove : (path : Text) → removable path ≡ true) where
  -- A file that is gone stays gone.
  remove_marker-missing :
      (files : Files) (m : LockedCommandMarker) (path : Text)
      → get_or missing files path ≡ missing
      → get_or missing (remove_marker_if_unchanged removable files m.path m.raw) path ≡ missing
  remove_marker-missing files m path e = go (get_or missing files m.path)
    where
      go :
          (file : File)
          → get_or missing (remove_if_same (removable m.path) files m.path m.raw file) path
            ≡ missing
      go missing = e
      go unreadable = e
      go (holds current) =
          if_elim (λ (r : Files). get_or missing r path ≡ missing)
            (text_eq current m.raw && removable m.path) _ _
            (λ t. elim (Bool-cases (text_eq m.path path)) [
              | inl same ↦
                  subst (λ q. get_or missing (remove files m.path) q ≡ missing)
                    ((text_eq_iff m.path path).0 same) (get_or-remove missing files m.path)
              | inr other ↦ get_or-remove_other missing files m.path path other ∙ e
            ])
            (λ t. e)

  -- A marker that still holds what was read of it is removed.
  remove_marker-same :
      (files : Files) (m : LockedCommandMarker)
      → get_or missing files m.path ≡ holds m.raw
      → get_or missing (remove_marker_if_unchanged removable files m.path m.raw) m.path ≡ missing
  remove_marker-same files m e =
      rw (e, text_eq_refl m.raw, can_remove m.path) (get_or-remove missing files m.path)

  -- A file under another path, or the one of a marker, is as it was or gone.
  remove_marker-kept :
      (files : Files) (m : LockedCommandMarker) (path : Text) (file : File)
      → get_or missing files path ≡ file
      → (get_or missing (remove_marker_if_unchanged removable files m.path m.raw) path ≡ file)
        ⊎ (get_or missing (remove_marker_if_unchanged removable files m.path m.raw) path ≡ missing)
  remove_marker-kept files m path file e = go (get_or missing files m.path)
    where
      go :
          (found : File)
          → (get_or missing (remove_if_same (removable m.path) files m.path m.raw found) path
              ≡ file)
            ⊎ (get_or missing (remove_if_same (removable m.path) files m.path m.raw found) path
                ≡ missing)
      go missing = inl e
      go unreadable = inl e
      go (holds current) =
          if_elim
            (λ (r : Files). (get_or missing r path ≡ file) ⊎ (get_or missing r path ≡ missing))
            (text_eq current m.raw && removable m.path) _ _
            (λ t. elim (Bool-cases (text_eq m.path path)) [
              | inl same ↦ inr (
                  subst (λ q. get_or missing (remove files m.path) q ≡ missing)
                    ((text_eq_iff m.path path).0 same) (get_or-remove missing files m.path))
              | inr other ↦ inl (get_or-remove_other missing files m.path path other ∙ e)
            ])
            (λ t. inl e)

  retire-missing :
      (files : Files) (ms : List LockedCommandMarker) (path : Text)
      → get_or missing files path ≡ missing
      → get_or missing (retire removable files ms) path ≡ missing
  unfolding retire
  retire-missing files [] path e = e
  retire-missing files (m ∷ ms) path e =
      retire-missing (remove_marker_if_unchanged removable files m.path m.raw) ms path
        (remove_marker-missing files m path e)

  retire-locked :
      (files : Files) (ms : List LockedCommandMarker) (m : LockedCommandMarker)
      → In m ms
      → get_or missing files m.path ≡ holds m.raw
      → get_or missing (retire removable files ms) m.path ≡ missing
  unfolding retire
  retire-locked files [] m i h = absurd i.lower
  retire-locked files (n ∷ ms) m (inl e) h =
      retire-missing (remove_marker_if_unchanged removable files n.path n.raw) ms m.path (
        subst
          (λ (n : LockedCommandMarker).
            get_or missing (remove_marker_if_unchanged removable files n.path n.raw) m.path
            ≡ missing)
          e (remove_marker-same files m h))
  retire-locked files (n ∷ ms) m (inr i) h =
      elim (remove_marker-kept files n m.path (holds m.raw) h) [
        | inl kept ↦
            retire-locked (remove_marker_if_unchanged removable files n.path n.raw) ms m i kept
        | inr gone ↦
            retire-missing (remove_marker_if_unchanged removable files n.path n.raw) ms m.path gone
      ]

  pub retire-IsLocked :
      (files : Files) (ms : List LockedCommandMarker) (path : Text)
      → IsLocked files ms path
      → get_or missing (retire removable files ms) path ≡ missing
  retire-IsLocked files ms path (inl e) = retire-missing files ms path e
  retire-IsLocked files ms path (inr (m, i, named, h)) =
      subst (λ q. get_or missing (retire removable files ms) q ≡ missing) named
        (retire-locked files ms m i (ap (get_or missing files) named ∙ h))
