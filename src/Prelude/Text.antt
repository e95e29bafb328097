-- ===== src/Prelude/Text.antt =====
-- Text literals as bytes.
use Prim.Native.String.{String}
use Prim.Native.Char.{code}
use mathlib.Core.List.{[], ◌∷◌}
use cdm.Prelude.Lists.{Bytes}

-- The bytes of an ASCII text.
abbrev pub codes : String → Bytes
codes String.[] = []
codes (String.◌∷◌ c s) = code c ∷ codes s
