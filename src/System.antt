-- ===== src/System.antt =====
-- What the program asks of the operating system, through Rust's `std::env`, `std::fs`, `tokio::fs`
-- and `tokio::time`. The world is unknown; what the theorems assume of it are the laws below.
use pulse_narrator.Prelude.{ℕ, ◌+◌, ◌≡◌, String, List, Option, some, Bool, true, false}
use pulse_narrator.Prelude.Results.{Result, ok}
use pulse_narrator.Prelude.Actions.{Action}

-- `std::io::Error`, by its kind and its text.
pub data IoErrorKind : Type 0 where
  not_found permission_denied invalid_input unexpected_eof other : IoErrorKind

pub record IoError : Type 0 where
  pub kind : IoErrorKind
  pub message : String

-- Paths are texts, durations are milliseconds, file modes are numbers. `text_at` and `clock` are
-- for statements alone: the program reads neither. `read` opens a file and reads it to its end: other
-- programs may write to it before and while it does, so it leaves a world of its own.
pub record Os : Type 1 where
  pub World : Type 0
  pub home : World → Option String
  pub parent : String → Option String
  pub exists : String → World → Bool
  pub metadata_len : String → World → Result IoError ℕ
  pub read : String → Action World IoError (List ℕ)
  pub write : String → String → Action World IoError (Unit {0})
  pub remove_file : String → Action World IoError (Unit {0})
  pub create_dir_all : String → Action World IoError (Unit {0})
  pub set_permissions : String → ℕ → Action World IoError (Unit {0})
  pub sleep : ℕ → World → World
  pub text_at : String → World → Option String
  pub clock : World → ℕ

-- A `sleep` lasts as long as it was asked to.
pub record Sleeps (os : Os) : Type 0 where
  pub clock-sleep : (d : ℕ) (w : os.World) → os.clock (os.sleep d w) ≡ os.clock w + d

-- `std::fs::write` and `std::fs::remove_file`, where they succeed.
pub record WritesFiles (os : Os) : Type 0 where
  pub written :
      (path text : String) (w : os.World)
      → (os.write path text w).0 ≡ ok tt
      → os.text_at path (os.write path text w).1 ≡ some text
  pub removed :
      (path : String) (w : os.World)
      → (os.remove_file path w).0 ≡ ok tt
      → os.text_at path (os.remove_file path w).1 ≡ Option.none
  pub gone :
      (path : String) (w : os.World)
      → (os.remove_file path w).0 ≡ ok tt
      → os.exists path (os.remove_file path w).1 ≡ false
  pub present :
      (path text : String) (w : os.World) → os.text_at path w ≡ some text → os.exists path w ≡ true
