-- ===== src/Utf8/Bounded.antt =====
-- What the truncation returns.
use monitord.Base.{
  ℕ, zero, suc, ◌≤◌, ◌<◌, Text, ◌≡◌, refl, ◌⊎◌, inl, inr, true, false, [], arith, leb, length, take,
  length-take-le, Bool-cases,
}
use monitord.Utf8.{valid_utf8, shrink, bounded_text}

valid-nil : valid_utf8 [] ≡ true
unfolding valid_utf8
valid-nil = refl

-- The longest prefix of at most `n` bytes that is valid.
pub record IsLongest (n : ℕ) (value out : Text) : Type 0 where
  pub size : ℕ
  pub within : size ≤ n
  pub prefix : out ≡ take size value
  pub valid : valid_utf8 out ≡ true
  pub longest : (m : ℕ) → size < m → m ≤ n → valid_utf8 (take m value) ≡ false

shrink-IsLongest : (n : ℕ) (value : Text) → IsLongest n value (shrink n value)
unfolding shrink
shrink-IsLongest zero value = record {
  size = 0;
  within = omega arith;
  prefix = refl;
  valid = valid-nil;
  longest = λ m lo hi. absurd (omega arith);
}
shrink-IsLongest (suc n) value = elim (Bool-cases (valid_utf8 (take (suc n) value))) [
  | inl v ↦ record {
    size = suc n;
    within = omega arith;
    prefix = rw v;
    valid = rw v v;
    longest = λ m lo hi. absurd (omega arith);
  }
  | inr v ↦
      let rest = shrink-IsLongest n value in
      record {
        size = rest.size;
        within = omega (arith, rest.within);
        prefix = rw v rest.prefix;
        valid = rw v rest.valid;
        longest = λ m lo hi. elim (Bool-cases (leb m n)) [
          | inl below ↦ rest.longest m lo (ground arith)
          | inr top ↦ let whole : m ≡ suc n = ground arith in rw whole v
        ];
      }
]

-- A text within the limit is returned as it is; a longer one is cut to its longest valid prefix
-- of at most `limit` bytes, so the loop of the source ends.
pub bounded_text_lem :
    (value : Text) (limit : ℕ)
    → ((length value ≤ limit) × (bounded_text value limit ≡ value))
      ⊎ ((limit < length value) × IsLongest limit value (bounded_text value limit))
unfolding bounded_text
bounded_text_lem value limit = elim (Bool-cases (leb (length value) limit)) [
  | inl short ↦ inl (ground arith, rw short)
  | inr long ↦ inr (ground arith, rw long (shrink-IsLongest limit value))
]

pub length-bounded_text-le : (value : Text) (limit : ℕ) → length (bounded_text value limit) ≤ limit
length-bounded_text-le value limit = elim (bounded_text_lem value limit) [
  | inl (short, same) ↦ rw same short
  | inr (long, cut) ↦ rw cut.prefix (omega (arith, length-take-le cut.size value, cut.within))
]
