-- ===== src/Tests/Secrets.antt =====
-- The normal form of three references to two secrets.
use monitord.Base.{
  ◌≡◌, refl, true, false, some, List, [], ◌∷◌, text_eq, text_leb, sort_by, insert_by,
}
use monitord.Base.Table.{select, delete}
use monitord.Worker.Secrets.{
  SecretRef, kebab, valid_ref, all_valid, old_required, put_ref, merged, normalize_secret_refs,
}
use monitord.Worker.Secrets.Wanted.{IsDistinct, wanted, wanted-normalize_secret_refs}

abbrev later : SecretRef
later = record { group = 98 ∷ []; key = 107 ∷ []; required = false }

abbrev earlier : SecretRef
earlier = record { group = 97 ∷ 45 ∷ 97 ∷ []; key = 107 ∷ []; required = false }

abbrev refs : List SecretRef
refs = record later { required = true } ∷ earlier ∷ later ∷ []

abbrev normal : List SecretRef
normal = earlier ∷ record later { required = true } ∷ []

normal_lem : normalize_secret_refs refs ≡ some normal
unfolding normalize_secret_refs all_valid valid_ref kebab merged put_ref old_required sort_by
    insert_by text_leb text_eq select delete
normal_lem = refl

wanted-normalize_secret_refs_example :
    (wanted (98 ∷ []) (107 ∷ []) normal ≡ wanted (98 ∷ []) (107 ∷ []) refs) × IsDistinct normal
wanted-normalize_secret_refs_example =
    wanted-normalize_secret_refs refs normal normal_lem (98 ∷ []) (107 ∷ [])
