-- ===== src/Examples/Worlds.antt =====
-- A world with a clock, a marker file, one transcript and the mode of the socket.
use pulse_narrator.Prelude.{
  ℕ, ◌+◌, ◌%◌, ◌^◌, ◌<◌, ◌==◌, String, List, [], ◌∷◌, Bool, true, false, Option, none, some, str_eq,
  if◌then◌else◌, refl, arith, length, ◌≡◌,
}
use pulse_narrator.Prelude.Results.{Result, ok, err}
use pulse_narrator.System.{Os, Sleeps, WritesFiles}
use pulse_narrator.Core.Wire.{JsonError}
use pulse_narrator.Source.Probe.{Json}
use pulse_narrator.Daemon.Listener.{Binder, KeepsModes}

pub record SmallWorld : Type 0 where
  pub now : ℕ
  pub marker : Option String
  pub transcript : List ℕ
  pub mode : Option ℕ

abbrev is_there : Option String → Bool
is_there none = false
is_there (some text) = true

abbrev pub os : Os
os = record {
  World = SmallWorld;
  home = λ w. some "/home";
  parent = λ p. some "/home";
  exists = λ p w. is_there w.marker;
  metadata_len = λ p w. ok (length w.transcript);
  read = λ p w. (ok w.transcript, w);
  write = λ p text w. (ok tt, record w { marker = some text });
  remove_file = λ p w. (ok tt, record w { marker = none });
  create_dir_all = λ p w. (ok tt, w);
  set_permissions = λ p m w. (ok tt, record w { mode = some m });
  sleep = λ d w. record w { now = w.now + d };
  text_at = λ p w. w.marker;
  clock = λ w. w.now;
}

pub sleeps : Sleeps os
sleeps = record { clock-sleep = λ d w. refl }

there : (o : Option String) (text : String) → o ≡ some text → is_there o ≡ true
there none text h = absurd (cc h)
there (some t) text h = refl

pub files : WritesFiles os
files = record {
  written = λ p t w h. refl;
  removed = λ p w h. refl;
  gone = λ p w h. refl;
  present = λ p t w h. there w.marker t h;
}

abbrev pub binder : Binder os
binder = record { Listener = Unit {0}; bind = λ p w. (ok tt, w); mode_at = λ p w. w.mode }

pub keeps_modes : KeepsModes os binder
keeps_modes = record { mode_set = λ p m w h. refl }

-- A line that begins with a brace is a user's line with a message; others are no JSON.
pub data SmallJson : Type 0 where
  line user message : SmallJson

abbrev get_field : String → SmallJson → Option SmallJson
get_field key line =
    if str_eq key "type" then some user else if str_eq key "message" then some message else none
get_field key user = none
get_field key message = none

abbrev text_of : SmallJson → Option String
text_of line = none
text_of user = some "user"
text_of message = none

abbrev is_obj : SmallJson → Bool
is_obj line = true
is_obj user = false
is_obj message = true

abbrev parse_line : List ℕ → Result JsonError SmallJson
parse_line [] = err (record { message = "empty" })
parse_line (b ∷ bytes) = if b == 123 then ok line else err (record { message = "no object" })

abbrev pub json : Json
json = record {
  Value = SmallJson;
  from_slice = parse_line;
  get = get_field;
  as_str = text_of;
  is_object = is_obj;
}

abbrev pub hash : List ℕ → ℕ
hash bytes = length bytes % 2 ^ 64

pub hash-u64 : (bytes : List ℕ) → hash bytes < 2 ^ 64
hash-u64 bytes = omega arith

-- Two lines, the second of them no JSON, and no newline at the end.
abbrev pub two_lines : List ℕ
two_lines = 123 ∷ 10 ∷ 120 ∷ []

abbrev pub calm : SmallWorld
calm = record { now = 7; marker = none; transcript = two_lines; mode = none }

abbrev pub marked : SmallWorld
marked = record { now = 7; marker = some "old"; transcript = []; mode = none }
