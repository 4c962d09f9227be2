-- ===== src/Prelude/Words.antt =====
-- Searching in texts, as `std::string` does it.
use Prim.Native.Char.{code}
use Prim.Native.String.{String}
use mathlib.Core.Bool.{Bool, true, false, ◌&&◌, ◌||◌}
use mini_rpc.Prelude.Tests.{◌==◌}

-- `s.rfind(p, 0) == 0`
abbrev pub starts_with : String → String → Bool
starts_with String.[] s = true
starts_with (String.◌∷◌ c p) String.[] = false
starts_with (String.◌∷◌ c p) (String.◌∷◌ d s) = code c == code d && starts_with p s

-- `s.find(text) != std::string::npos`
abbrev pub contains : String → String → Bool
contains text String.[] = starts_with text String.[]
contains text (String.◌∷◌ d s) = starts_with text (String.◌∷◌ d s) || contains text s
