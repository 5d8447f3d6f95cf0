-- ===== src/Examples/Whole.antt =====
-- A transcript that grows between the turns of its session.
use pulse_narrator.Prelude.{
  ℕ, ◌≡◌, refl, String, List, [], ◌∷◌, ◌++◌, some, str_eq, Bool-cases, inl, inr, arith, length,
  length-append,
}
use pulse_narrator.Prelude.Results.{ok}
use pulse_narrator.Prelude.Maps.{lookup}
use pulse_narrator.Prelude.Words.{get_u32_le}
use pulse_narrator.Core.Wire.{WireEvent}
use pulse_narrator.Core.Wire.Stream.{read_frame}
use pulse_narrator.Source.Settle.{file_size}
use pulse_narrator.Source.Reader.{read_complete}
use pulse_narrator.Daemon.Degraded.{marker_path, make_parent, mark_degraded}
use pulse_narrator.Daemon.Session.{SessionManager, get}
use pulse_narrator.Daemon.Connection.{receive_frame, last_read_offset_of}
use pulse_narrator.Daemon.Tasks.{Choice, go, accept, outside, Process, run}
use pulse_narrator.Daemon.Tasks.Growing.{IsHome, AreAhead, Grows}
use pulse_narrator.Daemon.Tasks.Whole.{IsWhole, run-IsWhole}
use pulse_narrator.Examples.Worlds.{SmallWorld, os, json, hash, calm}
use pulse_narrator.Examples.Streams.{reader, punctual, serde}
use pulse_narrator.Examples.Wire.{turn_event, turn_frame}
use mathlib.Core.Path.{subst}

-- All sessions have the one transcript of the small world.
abbrev transcript_of : String → String
transcript_of session = "/t"

sleeps_grow : (d : ℕ) (w : SmallWorld) → Grows os transcript_of w (os.sleep d w)
unfolding file_size
sleeps_grow d w = λ path n h. h

reads_grow : (path : String) (w : SmallWorld) → Grows os transcript_of w (os.read path w).1
unfolding file_size
reads_grow path w = λ p n h. h

marks_grow :
    (reason : String) (w : SmallWorld) → Grows os transcript_of w (mark_degraded os reason w).1
unfolding file_size mark_degraded marker_path make_parent
marks_grow reason w = λ path n h. h

-- Another program adds a line.
abbrev add_line : SmallWorld → SmallWorld
add_line w = record w { transcript = w.transcript ++ (123 ∷ 10 ∷ []) }

adds : (w : SmallWorld) → Grows os transcript_of w (add_line w)
unfolding file_size
adds w = λ path n (size, there, more).
    let same : length w.transcript ≡ size = cc there in
    (
      length (w.transcript ++ (123 ∷ 10 ∷ [])),
      refl,
      omega (arith, same, more, length-append w.transcript (123 ∷ 10 ∷ [])),
    )

brings :
    (event : WireEvent)
    → receive_frame serde reader punctual turn_frame ≡ ok event
    → IsHome os transcript_of event.kind
unfolding receive_frame read_frame get_u32_le
brings event h =
    let same : turn_event ≡ event = cc h in
    subst (λ (e : WireEvent). IsHome os transcript_of e.kind) same (λ there. refl)

-- A session that has read two of the three bytes.
abbrev read_some : SessionManager
read_some = record {
  sessions =
      (
        "s",
        record {
          transcript_path = some "/t";
          last_event_id = some "k";
          receipt_seq = 1;
          last_read_offset = some 2;
        },
      )
      ∷ [];
}

is_ahead : AreAhead os transcript_of read_some calm
unfolding get lookup last_read_offset_of file_size
is_ahead sid = elim (Bool-cases (str_eq "s" sid.as_str)) [
  | inl own ↦ rw (last_read_offset_of, own) (3, refl, omega arith)
  | inr foreign ↦ rw (last_read_offset_of, foreign) tt
]

abbrev begin : Process os (receive_frame serde reader punctual) (read_complete os json hash)
begin = record { tasks = []; shared = (read_some, calm) }

abbrev growing : List (Choice os (receive_frame serde reader punctual) (read_complete os json hash))
growing =
    accept turn_frame ∷ go 0 ∷ outside add_line ∷ go 0 ∷ go 0 ∷ go 0 ∷ outside add_line ∷ go 0 ∷ []

run-IsWhole_example :
    IsWhole os transcript_of json hash
      (receive_frame serde reader punctual)
      sleeps_grow
      reads_grow
      marks_grow
      (run os (receive_frame serde reader punctual) (read_complete os json hash) growing begin)
run-IsWhole_example =
    run-IsWhole os transcript_of json hash (receive_frame serde reader punctual) sleeps_grow
      reads_grow marks_grow growing begin (brings, (adds, (adds, tt))) (is_ahead, tt)
