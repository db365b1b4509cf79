-- ===== src/Worker/Digest.antt =====
-- The bytes that `HashTransactionFrame` of coordinator.go hashes: a sequence of fields, each with its
-- length in front.
use monitord.Base.{
  ℕ, zero, suc, ◌*◌, ◌^◌, ◌/◌, ◌%◌, ◌<◌, Text, ◌≡◌, ◌≢◌, refl, ◌⊎◌, inl, inr, false, Bool-cases,
  text_eq, text_eq_iff, eq_of_text_eq, List, [], ◌∷◌, ◌++◌, arith, length, length-append, All, ap,
  sym, ◌∙◌,
}
use monitord.Worker.Protocol.{TransactionFrame}
use monitord.Worker.Coordinator.{put_uint, framed, Wire, hash_fields, hash_frame}

append-cancel :
    (xs ys zs ws : Text) → length xs ≡ length ys → xs ++ zs ≡ ys ++ ws → (xs ≡ ys) × (zs ≡ ws)
append-cancel [] [] zs ws n h = (refl, h)
append-cancel [] (y ∷ ys) zs ws n h = absurd (omega arith)
append-cancel (x ∷ xs) [] zs ws n h = absurd (omega arith)
append-cancel (x ∷ xs) (y ∷ ys) zs ws n h =
    let rest : (xs ≡ ys) × (zs ≡ ws) = append-cancel xs ys zs ws (omega arith) cc in (cc, rest.1)

length-put_uint : (k n : ℕ) → length (put_uint k n) ≡ k
unfolding put_uint
length-put_uint zero n = refl
length-put_uint (suc k) n =
    omega
      (arith, length-append (put_uint k (n / 256)) ((n % 256) ∷ []), length-put_uint k (n / 256))

same_length : (k n m : ℕ) → length (put_uint k n) ≡ length (put_uint k m)
same_length k n m = length-put_uint k n ∙ sym (length-put_uint k m)

pow-suc : (k : ℕ) → 256 ^ suc k ≡ 256 * 256 ^ k
pow-suc k = omega arith

put_uint-injective : (k n m : ℕ) → n < 256 ^ k → m < 256 ^ k → put_uint k n ≡ put_uint k m → n ≡ m
unfolding put_uint
put_uint-injective zero n m hn hm h = omega arith
put_uint-injective (suc k) n m hn hm h =
    let parts : (put_uint k (n / 256) ≡ put_uint k (m / 256)) × ((n % 256) ∷ [] ≡ (m % 256) ∷ []) =
      append-cancel (put_uint k (n / 256)) (put_uint k (m / 256)) ((n % 256) ∷ []) ((m % 256) ∷ [])
        (same_length k (n / 256) (m / 256)) h in
    let low : n % 256 ≡ m % 256 = cc in
    let high : n / 256 ≡ m / 256 =
      put_uint-injective k (n / 256) (m / 256) (omega (arith, pow-suc k)) (omega (arith, pow-suc k))
        parts.0 in
    omega arith

abbrev pub IsSized : Text → Type 0
IsSized raw = length raw < 2 ^ 64

framed-nonempty : (x : Text) (xs : List Text) → ¬ [] ≡ framed (x ∷ xs)
unfolding framed
framed-nonempty x xs h = omega (
  arith,
  ap length h,
  length-append (put_uint 8 (length x % 2 ^ 64)) (x ++ framed xs),
  length-put_uint 8 (length x % 2 ^ 64),
)

framed-injective :
    (xs ys : List Text) → All IsSized xs → All IsSized ys → framed xs ≡ framed ys → xs ≡ ys
unfolding framed
framed-injective [] [] hx hy h = refl
framed-injective [] (y ∷ ys) hx hy h = absurd (framed-nonempty y ys h)
framed-injective (x ∷ xs) [] hx hy h = absurd (framed-nonempty x xs (sym h))
framed-injective (x ∷ xs) (y ∷ ys) hx hy h =
    let outer =
      append-cancel (put_uint 8 (length x % 2 ^ 64)) (put_uint 8 (length y % 2 ^ 64))
        (x ++ framed xs) (y ++ framed ys) (same_length 8 (length x % 2 ^ 64) (length y % 2 ^ 64))
        h in
    let size : length x % 2 ^ 64 ≡ length y % 2 ^ 64 =
      put_uint-injective 8 (length x % 2 ^ 64) (length y % 2 ^ 64) (omega arith) (omega arith)
        outer.0 in
    let inner =
      append-cancel x y (framed xs) (framed ys) (omega (arith, hx.0, hy.0, size)) outer.1 in
    let rest = framed-injective xs ys hx.1 hy.1 inner.1 in
    ap (λ z. z ∷ xs) inner.0 ∙ ap (λ zs. y ∷ zs) rest

differ : (a b : Text) → text_eq a b ≡ false → a ≢ b
differ a b e same = ground (arith, (text_eq_iff a b).1 same)

-- Two frames whose marshalled fields are below 2 ^ 64 bytes and whose digests are equal either have
-- the same eight marshalled fields, or hash two different byte sequences to the same digest: the
-- bytes that are hashed determine every field.
pub hash_frame-injective :
    (w : Wire) (f g : TransactionFrame)
    → All IsSized (hash_fields w f)
    → All IsSized (hash_fields w g)
    → hash_frame w f ≡ hash_frame w g
    → (hash_fields w f ≡ hash_fields w g)
      ⊎ ((framed (hash_fields w f) ≢ framed (hash_fields w g))
          × (w.sha256 (framed (hash_fields w f)) ≡ w.sha256 (framed (hash_fields w g))))
unfolding hash_frame
hash_frame-injective w f g hf hg h =
    let fs = framed (hash_fields w f) in
    let gs = framed (hash_fields w g) in
    elim (Bool-cases (text_eq fs gs)) [
      | inl e ↦
          inl (framed-injective (hash_fields w f) (hash_fields w g) hf hg (eq_of_text_eq fs gs e))
      | inr e ↦ inr ((λ same. absurd (differ fs gs e same)), h)
    ]
