-- ===== src/Mentions/Printing.antt =====
-- What the printed form of a parsed mention parses to.
use monitord.Base.{
  ℕ, Text, codes, text_eq, true, ◌&&◌, ◌≡◌, refl, inl, inr, Option, none, some, [], ◌∷◌, ◌≤◌, arith,
  All, Bool-cases, leb,
}
use mathlib.Core.Path.{subst}
use monitord.Mentions.{
  MentionKind, user, role, here, everyone, Mention, all_digits, is_snowflake, cut, kind_of, with_id,
  of_parts, parse_trimmed, parse_mention, kind_text, mention_text,
}

-- What a mention carries: an identifier exactly where it names somebody.
unfoldable pub HasId : Mention → Type 0
HasId m = elim m.kind [
  | here ↦ m.id ≡ []
  | everyone ↦ m.id ≡ []
  | user ↦ is_snowflake m.id ≡ true
  | role ↦ is_snowflake m.id ≡ true
]

parts-HasId :
    (id kind : Text) (m : Mention)
    → is_snowflake id ≡ true
    → with_id id (kind_of kind) ≡ some m
    → HasId m
unfolding kind_of HasId
parts-HasId id kind m s h = elim (Bool-cases (text_eq kind (codes "user"))) [
  | inl e ↦ let same : record { kind = user; id = id } ≡ m = ground (arith, e) in subst HasId same s
  | inr e ↦ elim (Bool-cases (text_eq kind (codes "role"))) [
    | inl e2 ↦
        let same : record { kind = role; id = id } ≡ m = ground (arith, e) in subst HasId same s
    | inr e2 ↦ absurd (ground arith)
  ]
]

of_parts-HasId : (parts : Option (Text × Text)) (m : Mention) → of_parts parts ≡ some m → HasId m
unfolding of_parts
of_parts-HasId none m h = cc
of_parts-HasId (some (kind, id)) m h = elim (Bool-cases (is_snowflake id)) [
  | inl s ↦ parts-HasId id kind m s (ground arith)
  | inr s ↦ absurd (ground arith)
]

parse_trimmed-HasId : (v : Text) (m : Mention) → parse_trimmed v ≡ some m → HasId m
unfolding parse_trimmed HasId
parse_trimmed-HasId v m h = elim (Bool-cases (text_eq v (codes "here"))) [
  | inl e ↦
      let same : record { kind = here; id = [] } ≡ m = ground (arith, e) in subst HasId same refl
  | inr e ↦ elim (Bool-cases (text_eq v (codes "everyone"))) [
    | inl e2 ↦
        let same : record { kind = everyone; id = [] } ≡ m = ground (arith, e) in
        subst HasId same refl
    | inr e2 ↦ of_parts-HasId (cut v) m (ground arith)
  ]
]

text-kind :
    (k : MentionKind) (id : Text)
    → HasId (record { kind = k; id = id })
    → parse_trimmed (mention_text (record { kind = k; id = id }))
      ≡ some (record { kind = k; id = id })
unfolding parse_trimmed kind_text cut of_parts kind_of codes text_eq mention_text HasId
text-kind user id h = rw h refl
text-kind role id h = rw h refl
text-kind here id h = rw h refl
text-kind everyone id h = rw h refl

-- A byte that strings.TrimSpace never removes.
abbrev pub IsPrintable : ℕ → Type 0
IsPrintable b = (33 ≤ b) × (b ≤ 126)

all_digits-IsPrintable : (t : Text) → all_digits t ≡ true → All IsPrintable t
unfolding all_digits
all_digits-IsPrintable [] h = tt
all_digits-IsPrintable (b ∷ bs) h =
    ((ground arith, ground arith), all_digits-IsPrintable bs (ground arith))

snowflake-IsPrintable : (t : Text) → is_snowflake t ≡ true → All IsPrintable t
unfolding is_snowflake
snowflake-IsPrintable t h = all_digits-IsPrintable t (ground arith)

printable : (b : ℕ) → leb 33 b && leb b 126 ≡ true → IsPrintable b
printable b h = (ground arith, ground arith)

kind_text-IsPrintable :
    (k : MentionKind) (id : Text)
    → HasId (record { kind = k; id = id })
    → All IsPrintable (mention_text (record { kind = k; id = id }))
unfolding mention_text HasId kind_text codes
kind_text-IsPrintable user id h = (
  printable 117 refl,
  (
    printable 115 refl,
    (printable 101 refl, (printable 114 refl, (printable 58 refl, snowflake-IsPrintable id h))),
  ),
)
kind_text-IsPrintable role id h = (
  printable 114 refl,
  (
    printable 111 refl,
    (printable 108 refl, (printable 101 refl, (printable 58 refl, snowflake-IsPrintable id h))),
  ),
)
kind_text-IsPrintable here id h =
    (printable 104 refl, (printable 101 refl, (printable 114 refl, (printable 101 refl, tt))))
kind_text-IsPrintable everyone id h = (
  printable 101 refl,
  (
    printable 118 refl,
    (
      printable 101 refl,
      (
        printable 114 refl,
        (printable 121 refl, (printable 111 refl, (printable 110 refl, (printable 101 refl, tt)))),
      ),
    ),
  ),
)

-- Whatever text parses to a mention, the printed form of that mention parses to the same mention,
-- for a `trim_space` that leaves a text of printable bytes without spaces as it is.
pub parse_mention-mention_text :
    (trim_space : Text → Text) (v : Text) (m : Mention)
    → ((t : Text) → All IsPrintable t → trim_space t ≡ t)
    → parse_mention trim_space v ≡ some m
    → parse_mention trim_space (mention_text m) ≡ some m
unfolding parse_mention
parse_mention-mention_text trim_space v m fixed h =
    let has_id : HasId m = parse_trimmed-HasId (trim_space v) m h in
    rw (fixed (mention_text m) (kind_text-IsPrintable m.kind m.id has_id))
      (text-kind m.kind m.id has_id)
