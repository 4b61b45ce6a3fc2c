-- ===== src/Common/Text.antt =====
-- The tests on text that the packages make: `!value.trim()` and the SHA-256 digest pattern.
use Prim.Native.Nat.{ℕ, zero, suc}
use Prim.Native.Char.{code}
use Prim.Native.String.{String, [], ◌∷◌}
use mathlib.Core.Bool.{Bool, true, false, ◌&&◌, ◌||◌}
use mathlib.Core.Option.{Option, none, some}
use qodex.Common.Tests.{leb, eqb, if◌then◌else◌}

-- What `String.prototype.trim` removes: white space and line terminators of ECMAScript.
abbrev pub is_space : ℕ → Bool
is_space c =
    (leb 9 c && leb c 13)
    || eqb c 32
    || eqb c 160
    || eqb c 5760
    || (leb 8192 c && leb c 8202)
    || eqb c 8232
    || eqb c 8233
    || eqb c 8239
    || eqb c 8287
    || eqb c 12288
    || eqb c 65279

-- `!text.trim()`
unfoldable pub is_blank : String → Bool
is_blank [] = true
is_blank (c ∷ s) = is_space (code c) && is_blank s

abbrev is_hex : ℕ → Bool
is_hex c = (leb b'0' c && leb c b'9') || (leb b'a' c && leb c b'f')

-- `[0-9a-f]{n}$`
hex_digits : ℕ → String → Bool
hex_digits zero [] = true
hex_digits zero (c ∷ s) = false
hex_digits (suc n) [] = false
hex_digits (suc n) (c ∷ s) = is_hex (code c) && hex_digits n s

drop_prefix : String → String → Option String
drop_prefix [] s = some s
drop_prefix (c ∷ p) [] = none
drop_prefix (c ∷ p) (d ∷ s) = if eqb (code c) (code d) then drop_prefix p s else none

-- `/^sha256:[0-9a-f]{64}$/.test(text)`
unfoldable pub is_sha256 : String → Bool
unfolding hex_digits drop_prefix
is_sha256 text = elim (drop_prefix "sha256:" text) [ none ↦ false | some s ↦ hex_digits 64 s ]
