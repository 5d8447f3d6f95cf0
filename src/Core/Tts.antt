-- ===== src/Core/Tts.antt =====
-- crates/pulse-core/src/tts.rs: the types of the text-to-speech seam. No provider exists yet.
use pulse_narrator.Prelude.{ℕ, String, List}
use pulse_narrator.Prelude.Results.{Result}
use pulse_narrator.Core.Event.{Utterance}

pub record AudioClip : Type 0 where
  pub samples : List ℕ
  pub sample_rate_hz : ℕ

pub data TtsError : Type 0 where
  synthesis_failed : String → TtsError
  unavailable : String → TtsError

pub record TtsProvider : Type 0 where
  pub synthesize : Utterance → Result TtsError AudioClip
