-- ===== src/Base/Text.antt =====
-- Text as code points, for the code that walks bytes.
use Prim.Native.Nat.{ℕ}
use Prim.Native.Char.{code}
use Prim.Native.String
use Prim.Native.String.{String}
use mathlib.Core.List.{List, [], ◌∷◌}

-- The code points of a text: its bytes, if it is ASCII.
abbrev pub codes : String → List ℕ
codes String.[] = []
codes (String.◌∷◌ c s) = code c ∷ codes s

-- Joining texts, as fmt.Sprintf does with its verbs replaced.
infixr 65 ◌&◌
abbrev pub ◌&◌ : String → String → String
s & t = String.◌++◌ s t
