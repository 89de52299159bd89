-- ===== src/Base/Texts.antt =====
-- What the database does with texts: the limit of a varchar column, and the comparison of uuids.
use Prim.Native.Nat.{ℕ, zero, suc, ◌+◌}
use Prim.Native.Char.{code}
use Prim.Native.String.{String}
use mathlib.Core.Bool.{Bool, true, false, ◌&&◌}
use mathlib.Core.Option.{Option, none, some}
use potg.Base.Tests.{leb, ◌==◌, if◌then◌else◌}

-- Whether a text has at most `n` characters.
abbrev pub fits : ℕ → String → Bool
fits n String.[] = true
fits zero (String.◌∷◌ c s) = false
fits (suc n) (String.◌∷◌ c s) = fits n s

-- The same for a column that may be null.
abbrev pub fits_option : ℕ → Option String → Bool
fits_option n none = true
fits_option n (some s) = fits n s

-- The code of a letter in lower case.
abbrev pub lower : ℕ → ℕ
lower c = if leb b'A' c && leb c b'Z' then c + 32 else c

-- Two spellings of one uuid differ in the case of letters only.
abbrev pub same_uuid : String → String → Bool
same_uuid String.[] String.[] = true
same_uuid String.[] (String.◌∷◌ d t) = false
same_uuid (String.◌∷◌ c s) String.[] = false
same_uuid (String.◌∷◌ c s) (String.◌∷◌ d t) = lower (code c) == lower (code d) && same_uuid s t
