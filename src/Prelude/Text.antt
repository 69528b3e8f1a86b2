-- ===== src/Prelude/Text.antt =====
-- Python's `str` where the program takes texts apart: concatenation, order, `replace`.
use Prim.Native.Nat.{Ordering}
use Prim.Native.Char.{code}
use Prim.Native.String.{String, ◌++◌, compare}
use mathlib.Core.Bool.{Bool, true, false}
use cap_alerts.Prelude.Tests.{◌=ℕ◌, if◌then◌else◌}

-- `s + t`
abbrev pub concat : String → String → String
concat s t = s ++ t

-- `s <= t`, the order by code points.
abbrev pub text_le : String → String → Bool
text_le s t = elim (compare s t) [ Ordering.gt ↦ false | _ ↦ true ]

-- `s.replace("Z", "+00:00")`
unfoldable pub replace_z : String → String
replace_z String.[] = ""
replace_z (String.◌∷◌ c s) =
    if code c =ℕ b'Z' then "+00:00" ++ replace_z s else String.◌∷◌ c (replace_z s)
