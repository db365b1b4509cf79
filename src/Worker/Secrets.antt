-- ===== src/Worker/Secrets.antt =====
-- session.go: secret references, and their normal form in a plan.
pub mod Wanted
use monitord.Base.{
  ℕ, Text, text_eq, text_leb, Bool, true, false, not, ◌&&◌, ◌||◌, Option, none, some, List, [], ◌∷◌,
  ◌==◌, leb, if◌then◌else◌, Result, ok, err, sort_by,
}
use monitord.Base.Table.{delete}

pub record SecretRef : Type 0 where
  pub group : Text
  pub key : Text
  pub required : Bool

-- A byte of [a-z0-9].
abbrev pub is_word : ℕ → Bool
is_word b = (leb 97 b && leb b 122) || (leb 48 b && leb b 57)

-- The rest of ^[a-z0-9]+(?:-[a-z0-9]+)*$, after a word byte or not.
unfoldable pub kebab : Bool → Text → Bool
kebab after_word [] = after_word
kebab after_word (b ∷ bs) =
    let word = kebab true bs in
    let dash = kebab false bs in
    if is_word b then word else if b == 45 && after_word then dash else false

-- `Validate`.
unfoldable pub valid_ref : SecretRef → Bool
unfolding kebab
valid_ref r = kebab false r.group && kebab false r.key

unfoldable pub all_valid : List SecretRef → Bool
unfolding valid_ref
all_valid [] = true
all_valid (r ∷ rs) = valid_ref r && all_valid rs

-- The key of the map is group + NUL + key, and neither has a NUL.
abbrev pub same_secret : SecretRef → SecretRef → Bool
same_secret a b = text_eq b.group a.group && text_eq b.key a.key

-- The entry of the map under the key of a reference.
unfoldable pub old_required : SecretRef → List SecretRef → Bool
old_required r [] = false
old_required r (x ∷ m) = if same_secret r x then x.required else old_required r m

unfoldable pub put_ref : SecretRef → List SecretRef → List SecretRef
unfolding old_required delete
put_ref r m = record r { required = r.required || old_required r m } ∷ delete (same_secret r) m

unfoldable pub merged : List SecretRef → List SecretRef → List SecretRef
unfolding put_ref
merged m [] = m
merged m (r ∷ rs) = merged (put_ref r m) rs

abbrev pub ref_leb : SecretRef → SecretRef → Bool
ref_leb a b = if text_eq a.group b.group then text_leb a.key b.key else text_leb a.group b.group

-- `normalizeSecretRefs`: the references of the map in their order, or none if one is invalid.
unfoldable pub normalize_secret_refs : List SecretRef → Option (List SecretRef)
unfolding all_valid merged sort_by text_leb
normalize_secret_refs refs =
    if all_valid refs then some (sort_by ref_leb (merged [] refs)) else none
