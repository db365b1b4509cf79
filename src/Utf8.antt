-- ===== src/Utf8.antt =====
-- UTF-8 as Go's unicode/utf8 accepts it, and the truncation of error texts: `boundedText` of
-- internal/storage/store.go, and the same loop in `boundedOperationalError` of supervisor.go.
pub mod Bounded
use monitord.Base.{
  ℕ, zero, suc, Text, Bool, true, false, ◌&&◌, ◌||◌, Option, none, some, [], ◌∷◌, ◌==◌, ltb, leb,
  if◌then◌else◌, length, take,
}

-- How many continuation bytes are due, and the range of the next one.
record Due : Type 0 where
  count : ℕ
  low : ℕ
  high : ℕ

abbrev due : ℕ → ℕ → ℕ → Option Due
due n low high = some (record { count = n; low = low; high = high })

-- The first byte of a code point.
lead : ℕ → Option Due
lead b =
    if ltb b 0x80
    then due 0 0x80 0xbf
    else if ltb b 0xc2
    then none
    else if ltb b 0xe0
    then due 1 0x80 0xbf
    else if b == 0xe0
    then due 2 0xa0 0xbf
    else if b == 0xed
    then due 2 0x80 0x9f
    else if ltb b 0xf0
    then due 2 0x80 0xbf
    else if b == 0xf0
    then due 3 0x90 0xbf
    else if ltb b 0xf4
    then due 3 0x80 0xbf
    else if b == 0xf4
    then due 3 0x80 0x8f
    else none

next : Due → ℕ → Option Due
unfolding lead
next d b = elim d.count [
  | zero ↦ lead b
  | suc n ↦ if leb d.low b && leb b d.high then due n 0x80 0xbf else none
]

accepts : Option Due → Text → Bool
accepts none bs = false
accepts (some d) [] = d.count == 0
accepts (some d) (b ∷ bs) = accepts (next d b) bs

unfoldable pub valid_utf8 : Text → Bool
unfolding accepts next
valid_utf8 bs = accepts (due 0 0x80 0xbf) bs

-- `for !utf8.ValidString(value) { value = value[:len(value)-1] }` on the first `n` bytes.
shrink : ℕ → Text → Text
shrink zero value = []
shrink (suc n) value =
    let shorter = shrink n value in
    if valid_utf8 (take (suc n) value) then take (suc n) value else shorter

unfoldable pub bounded_text : Text → ℕ → Text
unfolding shrink
bounded_text value limit = if leb (length value) limit then value else shrink limit value
