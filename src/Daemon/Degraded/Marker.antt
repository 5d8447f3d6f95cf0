-- ===== src/Daemon/Degraded/Marker.antt =====
-- What the marker file holds after the helpers, and what they do without a HOME.
use pulse_narrator.Prelude.{String, ◌≡◌, refl, inl, inr, none, some, Bool-cases, Option-cases}
use pulse_narrator.Prelude.Results.{ok, err, map_err, Result-cases}
use pulse_narrator.System.{Os, WritesFiles}
use pulse_narrator.Daemon.Error.{degraded_marker}
use pulse_narrator.Daemon.Degraded.{
  home_not_set, marker_path, clear_degraded, make_parent, mark_degraded,
}

module _ (os : Os) where
  open os use {World, home, parent, exists, write, remove_file, create_dir_all, text_at}

  -- The world in which the marker is written.
  abbrev pub before_write : String → World → World
  before_write path w = (make_parent os (parent path) w).1

  mark_degraded_at :
      (reason path : String) (w : World)
      → marker_path os w ≡ ok path
      → (make_parent os (parent path) w).0 ≡ ok tt
      → mark_degraded os reason w ≡ (
        map_err (degraded_marker path) (write path reason (before_write path w)).0,
        (write path reason (before_write path w)).1,
      )
  unfolding mark_degraded
  mark_degraded_at reason path w here made = rw here (rw made refl)

  mark_degraded-eq-ok :
      (reason : String) (w : World)
      → (mark_degraded os reason w).0 ≡ ok tt
      → (path : String) × (marker_path os w ≡ ok path)
        × ((write path reason (before_write path w)).0 ≡ ok tt)
        × ((mark_degraded os reason w).1 ≡ (write path reason (before_write path w)).1)
  unfolding mark_degraded
  mark_degraded-eq-ok reason w h = elim (Result-cases (marker_path os w)) [
    | inr (e, here) ↦ absurd (cc (rw here at h))
    | inl (path, here) ↦ elim (Result-cases (make_parent os (parent path) w).0) [
      | inr (e, made) ↦ absurd (cc (rw (here, made) at h))
      | inl (u, made) ↦ elim (Result-cases (write path reason (before_write path w)).0) [
        | inr (e, wrote) ↦ absurd (cc (rw (here, made, wrote) at h))
        | inl (v, wrote) ↦ (path, here, wrote, rw (here, made) refl)
      ]
    ]
  ]

  -- Marking that succeeds, on a file system that keeps what is written, leaves the reason in the
  -- marker file.
  pub mark_degraded_text :
      WritesFiles os
      → (reason : String) (w : World) → (mark_degraded os reason w).0 ≡ ok tt
      → (path : String) × (marker_path os w ≡ ok path)
        × (text_at path (mark_degraded os reason w).1 ≡ some reason)
  mark_degraded_text files reason w h =
      let (path, here, wrote, after) = mark_degraded-eq-ok reason w h in
      (path, here, rw after (files.written path reason _ wrote))

  -- Clearing that succeeds, on a file system that removes what it is told to, leaves no marker, whether there was one or not.
  pub clear_degraded_text :
      WritesFiles os
      → (w : World) → (clear_degraded os w).0 ≡ ok tt
      → (path : String) × (marker_path os w ≡ ok path)
        × (text_at path (clear_degraded os w).1 ≡ none)
  unfolding clear_degraded
  clear_degraded_text files w h = elim (Result-cases (marker_path os w)) [
    | inr (e, here) ↦ absurd (cc (rw here at h))
    | inl (path, here) ↦ elim (Bool-cases (exists path w)) [
      | inl there ↦ elim (Result-cases (remove_file path w).0) [
        | inr (e, gone) ↦ absurd (cc (rw (here, there, gone) at h))
        | inl (u, gone) ↦ (path, here, rw (here, there) (files.removed path w gone))
      ]
      | inr missing ↦ elim (Option-cases (text_at path w)) [
        | inl nothing ↦ (path, here, rw (here, missing) nothing)
        | inr (text, there) ↦ absurd (cc (missing, files.present path text w there))
      ]
    ]
  ]

  marker_path_no_home : (w : World) → home w ≡ none → marker_path os w ≡ err home_not_set
  unfolding marker_path
  marker_path_no_home w h = rw (marker_path, h) refl

  -- Without a HOME both fail in the same way and touch nothing.
  pub degraded_no_home :
      (reason : String) (w : World)
      → home w ≡ none
      → (mark_degraded os reason w ≡ (err home_not_set, w))
        × (clear_degraded os w ≡ (err home_not_set, w))
  unfolding mark_degraded clear_degraded
  degraded_no_home reason w h =
      (rw (marker_path_no_home w h) refl, rw (marker_path_no_home w h) refl)
