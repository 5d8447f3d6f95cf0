-- ===== src/Prelude/Paths.antt =====
-- `PathBuf::push` of a relative path, on Unix.
use Prim.Native.Char.{code}
use Prim.Native.String.{String, ◌++◌ as ◌<>◌}
use mathlib.Core.Bool.{Bool, false, not}
use pulse_narrator.Prelude.Tests.{◌==◌, if◌then◌else◌}

-- The path is not empty and does not end in a slash.
unfoldable pub needs_separator : String → Bool
needs_separator String.[] = false
needs_separator (String.◌∷◌ c String.[]) = not (code c == b'/')
needs_separator (String.◌∷◌ c (String.◌∷◌ d s)) = needs_separator (String.◌∷◌ d s)

unfoldable pub push : String → String → String
unfolding needs_separator
push base relative = if needs_separator base then base <> ("/" <> relative) else base <> relative
