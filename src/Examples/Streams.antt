-- ===== src/Examples/Streams.antt =====
-- Streams over lists of bytes, and a serializer of two kinds of events.
use pulse_narrator.Prelude.{
  ℕ, String, ◌≡◌, List, [], ◌∷◌, ◌++◌, ◌&&◌, Option, none, some, str_eq, eq_iff, if◌then◌else◌, leb,
  le→leb, lt→leb_false, refl, arith, length, take, drop,
}
use pulse_narrator.Prelude.Results.{Result, ok, err}
use pulse_narrator.Prelude.Words.{u32_le}
use pulse_narrator.System.{IoError, unexpected_eof}
use pulse_narrator.Core.Event.{SessionId}
use pulse_narrator.Core.Wire.{
  WireEvent, WireEventKind, turn_complete, attention_hint, hook_degraded, JsonError, Serde,
  IsLawful,
}
use pulse_narrator.Core.Wire.Stream.{AsyncRead, ReadsExactly, AsyncWrite, WritesAll}
use pulse_narrator.Daemon.Connection.{Timeout, Completes}
use pulse_narrator.Hook.Dispatch.{Socket, Bounded}
use pulse_narrator.Examples.Worlds.{os}

abbrev eof_error : IoError
eof_error = record { kind = unexpected_eof; message = "eof" }

abbrev pub reader : AsyncRead
reader = record {
  Reader = List ℕ;
  read_exact = λ n r. if leb n (length r) then (ok (take n r), drop n r) else (err eof_error, []);
  pending = λ r. r;
}

pub reads_exactly : ReadsExactly reader
reads_exactly = record {
  filled = λ n r h. (rw (le→leb n (length r) h) refl, rw (le→leb n (length r) h) refl);
  eof = λ n r h. (eof_error, rw (lt→leb_false n (length r) h) refl);
}

abbrev pub writer : AsyncWrite
writer = record {
  Writer = List ℕ;
  write_u32_le = λ n w. (ok tt, w ++ u32_le n);
  write_all = λ bytes w. (ok tt, w ++ bytes);
  sent = λ w. w;
}

pub writes_all : WritesAll writer
writes_all = record { u32_sent = λ n w h. refl; all_sent = λ bytes w h. refl }

abbrev pub punctual : Timeout reader
punctual = record { timeout = λ d m r. some (m r) }

pub completes : Completes reader punctual
completes = record { in_time = λ d m r x h. cc h }

abbrev pub late : Timeout reader
late = record { timeout = λ d m r. none }

abbrev pub socket : Socket os
socket = record {
  Stream = List ℕ;
  connect = λ d p w. (some (ok []), w);
  write_all = λ d bytes s w. (some (ok tt), s ++ bytes, w);
  flush = λ s w. (ok tt, s, w);
  sent = λ s. s;
}

pub bounded : Bounded os socket
bounded = record {
  connect_clock = λ d p w. omega arith;
  write_clock = λ d bytes s w. omega arith;
  flush_clock = λ s w. refl;
  fresh = λ d p w s h. cc h;
  written = λ d bytes s w h. refl;
}

abbrev pub no_json : JsonError
no_json = record { message = "not supported" }

-- A serializer that knows one turn.
module _ (id : String) where
  abbrev pub turn_of : WireEventKind
  turn_of = turn_complete (record { as_str = "s" }) (record { as_str = id }) (some "/t")

  abbrev write_turn : ℕ → String → String → Option String → Result JsonError (List ℕ)
  write_turn version sid tid none = err no_json
  write_turn version sid tid (some path) =
      if str_eq sid "s" && (str_eq tid id && str_eq path "/t")
      then ok (version ∷ 1 ∷ [])
      else err no_json

  abbrev write_degraded : ℕ → String → Option SessionId → Result JsonError (List ℕ)
  write_degraded version reason none = if str_eq reason "x" then ok (version ∷ []) else err no_json
  write_degraded version reason (some sid) = err no_json

  abbrev write_kind : ℕ → WireEventKind → Result JsonError (List ℕ)
  write_kind version (turn_complete sid tid path) = write_turn version sid.as_str tid.as_str path
  write_kind version (attention_hint sid event_id raw_kind path) = err no_json
  write_kind version (hook_degraded reason sid) = write_degraded version reason sid

  abbrev read_event : List ℕ → Result JsonError WireEvent
  read_event [] = err no_json
  read_event (version ∷ []) =
      ok (record { schema_version = version; kind = hook_degraded "x" none })
  read_event (version ∷ _ ∷ _) = ok (record { schema_version = version; kind = turn_of })

  abbrev pub serde_for : Serde
  serde_for = record {
    to_vec = λ event. write_kind event.schema_version event.kind;
    from_slice = read_event;
  }

  lawful_kind :
      (version : ℕ) (kind : WireEventKind) (body : List ℕ)
      → write_kind version kind ≡ ok body
      → read_event body ≡ ok (record { schema_version = version; kind = kind })
  lawful_kind version (turn_complete sid tid none) body h = absurd (cc h)
  lawful_kind version (turn_complete sid tid (some path)) body h =
      ground (arith, eq_iff sid.as_str "s", eq_iff tid.as_str id, eq_iff path "/t")
  lawful_kind version (attention_hint sid event_id raw_kind path) body h = absurd (cc h)
  lawful_kind version (hook_degraded reason none) body h = ground (arith, eq_iff reason "x")
  lawful_kind version (hook_degraded reason (some sid)) body h = absurd (cc h)

  pub serde_for-IsLawful : IsLawful serde_for
  serde_for-IsLawful = record {
    from_slice-to_vec = λ event body h. lawful_kind event.schema_version event.kind body h;
  }

abbrev pub the_turn : WireEventKind
the_turn = turn_of "m"

abbrev pub serde : Serde
serde = serde_for "m"

pub lawful : IsLawful serde
lawful = serde_for-IsLawful "m"
