-- ===== src/Daemon/Listener/Boundary.antt =====
-- A socket that the daemon listens on is its owner's alone.
use pulse_narrator.Prelude.{◌≡◌, refl, String, some, inl, inr}
use pulse_narrator.Prelude.Results.{ok, Result-cases}
use pulse_narrator.System.{Os}
use pulse_narrator.Daemon.Listener.{Binder, KeepsModes, owner_read_write, remove_stale, bind_socket}

module _ (os : Os) (binder : Binder os) where
  open os use {World, set_permissions}
  open binder use {Listener, bind, mode_at}

  -- The worlds between the steps of `bind_socket`.
  abbrev pub removed : String → World → World
  removed path w = (remove_stale os binder path w).1

  abbrev pub bound : String → World → World
  bound path w = (bind path (removed path w)).1

  pub bind_socket-eq-ok :
      (path : String) (w : World) (l : Listener)
      → (bind_socket os binder path w).0 ≡ ok l
      → ((set_permissions path owner_read_write (bound path w)).0 ≡ ok tt)
        × ((bind_socket os binder path w).1
            ≡ (set_permissions path owner_read_write (bound path w)).1)
  unfolding bind_socket
  bind_socket-eq-ok path w l h = elim (Result-cases (remove_stale os binder path w).0) [
    | inr (e, stale) ↦ absurd (cc (rw stale at h))
    | inl (u, stale) ↦ elim (Result-cases (bind path (removed path w)).0) [
      | inr (e, got) ↦ absurd (cc (rw (stale, got) at h))
      | inl (l', got) ↦
          elim (Result-cases (set_permissions path owner_read_write (bound path w)).0) [
            | inr (e, set) ↦ absurd (cc (rw (stale, got, set) at h))
            | inl (v, set) ↦ (set, rw (stale, got, set) refl)
          ]
    ]
  ]

  -- If binding succeeds and modes are kept as set, the file at the path has mode 0600, whatever it was before and
  -- whatever mode the binding gave it.
  pub bind_socket_mode :
      KeepsModes os binder
      → (path : String) (w : World) (l : Listener) → (bind_socket os binder path w).0 ≡ ok l
      → mode_at path (bind_socket os binder path w).1 ≡ some owner_read_write
  bind_socket_mode law path w l h =
      let (set, end) = bind_socket-eq-ok path w l h in
      rw end (law.mode_set path owner_read_write _ set)
