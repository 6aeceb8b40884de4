-- ===== src/Base/Texts.antt =====
-- Python's texts, as far as the program reads them: `not s.strip()`.
use Prim.Native.Nat.{ℕ}
use Prim.Native.Char.{code}
use Prim.Native.String.{String, [], ◌∷◌}
use mathlib.Core.Bool.{Bool, true, ◌&&◌, ◌||◌}
use ops_pilot_ai.Base.Tests.{eqb, leb}

-- `ch.isspace()`
unfoldable pub is_space : ℕ → Bool
is_space n =
    leb 9 n && leb n 13
    || leb 28 n && leb n 32
    || eqb n 133
    || eqb n 160
    || eqb n 5760
    || leb 8192 n && leb n 8202
    || eqb n 8232
    || eqb n 8233
    || eqb n 8239
    || eqb n 8287
    || eqb n 12288

-- Every character is a space.
unfoldable pub is_blank : String → Bool
is_blank [] = true
is_blank (ch ∷ s) = is_space (code ch) && is_blank s
