-- ===== src/Base/Hex.antt =====
-- Hexadecimal digits, as encoding/hex.DecodeString accepts them.
use Prim.Native.Nat.{ℕ}
use mathlib.Core.Bool.{Bool, true, ◌&&◌, ◌||◌}
use mathlib.Core.List.{[], ◌∷◌}
use monitord.Base.Tests.{leb}
use monitord.Base.Texts.{Text}

abbrev pub is_hex_digit : ℕ → Bool
is_hex_digit b = (leb 48 b && leb b 57) || ((leb 97 b && leb b 102) || (leb 65 b && leb b 70))

unfoldable pub all_hex : Text → Bool
all_hex [] = true
all_hex (b ∷ bs) = is_hex_digit b && all_hex bs
