-- ===== src/Daemon/Main/Starting.antt =====
-- What a startup that succeeds has done.
use pulse_narrator.Prelude.{String, ◌≡◌, refl, sym, List, some, inl, inr}
use pulse_narrator.Prelude.Results.{ok, Result-cases}
use pulse_narrator.System.{Os}
use pulse_narrator.Daemon.Degraded.{clear_degraded}
use pulse_narrator.Daemon.Listener.{Binder, KeepsModes, owner_read_write, bind_socket}
use pulse_narrator.Daemon.Listener.Boundary.{bind_socket_mode}
use pulse_narrator.Daemon.Main.{Args, parse_args, ensure_parent_dir, try_clear, startup}

module _ (os : Os) (binder : Binder os) where
  open os use {World, home}
  open binder use {Listener, mode_at}

  -- The worlds before the clearing of the marker and before the binding.
  abbrev pub secured : String → World → World
  secured path w = (ensure_parent_dir os path w).1

  abbrev pub cleared : String → World → World
  cleared path w = (clear_degraded os (secured path w)).1

  pub startup-eq-ok :
      (arguments : List String) (w : World) (args : Args) (l : Listener)
      → (startup os binder arguments w).0 ≡ ok (args, l)
      → (parse_args (home w) arguments ≡ ok args)
        × ((ensure_parent_dir os args.socket_path w).0 ≡ ok tt)
        × ((bind_socket os binder args.socket_path (cleared args.socket_path w)).0 ≡ ok l)
        × ((startup os binder arguments w).1
            ≡ (bind_socket os binder args.socket_path (cleared args.socket_path w)).1)
  unfolding startup try_clear
  startup-eq-ok arguments w args l h = elim (Result-cases (parse_args (home w) arguments)) [
    | inr (e, bad) ↦ absurd (cc (rw bad at h))
    | inl (a, good) ↦ elim (Result-cases (ensure_parent_dir os a.socket_path w).0) [
      | inr (e, open_to_all) ↦ absurd (cc (rw (good, open_to_all) at h))
      | inl (u, safe) ↦
          elim (Result-cases (bind_socket os binder a.socket_path (cleared a.socket_path w)).0) [
            | inr (e, unbound) ↦ absurd (cc (rw (good, safe, unbound) at h))
            | inl (l', bound) ↦
                let same : ok (a, l') ≡ ok (args, l) = rw (good, safe, bound) at h in
                let same_args : a ≡ args = cc same in
                let same_listener : l' ≡ l = cc same in
                rw (sym same_args, sym same_listener)
                  (good, safe, bound, rw (good, safe, bound) refl)
          ]
    ]
  ]

  -- A startup that succeeds went by the arguments of the command line, has cleared the marker as
  -- far as that could be done, and listens on the path of the arguments, where the file has mode
  -- 0600 if modes are kept as set.
  pub startup_mode :
      KeepsModes os binder
      → (arguments : List String) (w : World) (args : Args) (l : Listener)
      → (startup os binder arguments w).0 ≡ ok (args, l)
      → (parse_args (home w) arguments ≡ ok args)
        × ((bind_socket os binder args.socket_path (cleared args.socket_path w)).0 ≡ ok l)
        × (mode_at args.socket_path (startup os binder arguments w).1 ≡ some owner_read_write)
  startup_mode law arguments w args l h =
      let (read, safe, bound, end) = startup-eq-ok arguments w args l h in
      (
        read,
        bound,
        rw end
            (bind_socket_mode os binder law args.socket_path (cleared args.socket_path w) l bound),
      )
