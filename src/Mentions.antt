-- ===== src/Mentions.antt =====
-- internal/delivery/discord.go: the mention specs of a destination and of an event, as they are
-- parsed and printed. Go's strings.TrimSpace is the parameter `trim_space`.
pub mod Printing
use monitord.Base.{
  ℕ, Text, codes, text_eq, Bool, true, false, not, ◌&&◌, ◌||◌, Option, none, some, [], ◌∷◌, ◌++◌,
  ◌==◌, ltb, leb, length, if◌then◌else◌,
}

pub data MentionKind : Type 0 where
  user role here everyone : MentionKind

pub record Mention : Type 0 where
  pub kind : MentionKind
  pub id : Text

unfoldable pub all_digits : Text → Bool
all_digits [] = true
all_digits (r ∷ rs) = not (ltb r 48 || ltb 57 r) && all_digits rs

unfoldable pub is_snowflake : Text → Bool
unfolding all_digits
is_snowflake value = not (ltb (length value) 5 || ltb 25 (length value)) && all_digits value

-- strings.Cut at the first colon.
unfoldable pub cut : Text → Option (Text × Text)
cut [] = none
cut (b ∷ bs) =
    let rest = cut bs in
    if b == 58
    then some ([], bs)
    else elim rest [ none ↦ none | some (before, after) ↦ some (b ∷ before, after) ]

unfoldable pub kind_of : Text → Option MentionKind
kind_of k =
    if text_eq k (codes "user")
    then some user
    else if text_eq k (codes "role")
    then some role
    else none

abbrev pub with_id : Text → Option MentionKind → Option Mention
with_id id none = none
with_id id (some k) = some (record { kind = k; id = id })

unfoldable pub of_parts : Option (Text × Text) → Option Mention
unfolding is_snowflake kind_of
of_parts none = none
of_parts (some (kind, id)) = if is_snowflake id then with_id id (kind_of kind) else none

-- `ParseMention` on the trimmed value.
unfoldable pub parse_trimmed : Text → Option Mention
unfolding cut of_parts
parse_trimmed value =
    if text_eq value (codes "here")
    then some (record { kind = here; id = [] })
    else if text_eq value (codes "everyone")
    then some (record { kind = everyone; id = [] })
    else of_parts (cut value)

unfoldable pub parse_mention : (Text → Text) → Text → Option Mention
unfolding parse_trimmed
parse_mention trim_space value = parse_trimmed (trim_space value)

unfoldable pub kind_text : MentionKind → Text
kind_text user = codes "user"
kind_text role = codes "role"
kind_text here = codes "here"
kind_text everyone = codes "everyone"

-- `Mention.String`.
unfoldable pub mention_text : Mention → Text
unfolding kind_text
mention_text m = elim m.kind [
  | here ↦ kind_text here
  | everyone ↦ kind_text everyone
  | user ↦ kind_text user ++ 58 ∷ m.id
  | role ↦ kind_text role ++ 58 ∷ m.id
]
