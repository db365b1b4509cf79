-- ===== src/Worker/Secrets/Wanted.antt =====
-- session.go, `normalizeSecretRefs`: the secrets that references ask for.
use mathlib.Core.Path.{subst}
use monitord.Base.{
  Text, text_eq, text_eq_refl, eq_of_text_eq, ◌≡◌, refl, sym, ap, ◌∙◌, inl, inr, Bool, true, false,
  ◌&&◌, ◌||◌, Option, none, some, List, [], ◌∷◌, any, arith, if◌then◌else◌, Bool-cases, sort_by,
  insert_by,
}
use monitord.Base.Table.{select, delete}
use monitord.Worker.Secrets.{
  SecretRef, same_secret, old_required, put_ref, merged, all_valid, ref_leb, normalize_secret_refs,
}

-- Whether a secret is asked for, and then whether some reference requires it.
abbrev pub joined : Bool → Option Bool → Option Bool
joined b none = some b
joined b (some c) = some (b || c)

abbrev pub is_named : Text → Text → SecretRef → Bool
is_named group key r = text_eq r.group group && text_eq r.key key

unfoldable pub wanted : Text → Text → List SecretRef → Option Bool
wanted group key [] = none
wanted group key (r ∷ rs) =
    let rest = wanted group key rs in if is_named group key r then joined r.required rest else rest

-- No two references name the same secret.
abbrev pub IsDistinct : List SecretRef → Type 0
IsDistinct [] = Unit
IsDistinct (r ∷ rs) = (any (same_secret r) rs ≡ false) × IsDistinct rs

-- Both are asked for.
abbrev both : Option Bool → Option Bool → Option Bool
both none c = c
both (some b) c = joined b c

joined-swap : (a b : Bool) (o : Option Bool) → joined a (joined b o) ≡ joined b (joined a o)
joined-swap a b none = ground arith
joined-swap a b (some c) = ground arith

module _ (group key : Text) where
  wanted-insert_by :
      (r : SecretRef) (rs : List SecretRef)
      → wanted group key (insert_by ref_leb r rs) ≡ wanted group key (r ∷ rs)
  unfolding wanted insert_by
  wanted-insert_by r [] = refl
  wanted-insert_by r (x ∷ rs) = elim (Bool-cases (ref_leb r x)) [
    | inl le ↦ rw le refl
    | inr gt ↦ rw gt (elim (Bool-cases (is_named group key r)) [
      | inl a ↦ elim (Bool-cases (is_named group key x)) [
        | inl b ↦
            ground (
              arith,
              wanted-insert_by r rs,
              joined-swap x.required r.required (wanted group key rs),
            )
        | inr b ↦ ground (arith, wanted-insert_by r rs)
      ]
      | inr a ↦ ground (arith, wanted-insert_by r rs)
    ])
  ]

  wanted-sort_by :
      (rs : List SecretRef) → wanted group key (sort_by ref_leb rs) ≡ wanted group key rs
  unfolding sort_by wanted
  wanted-sort_by [] = refl
  wanted-sort_by (r ∷ rs) =
      wanted-insert_by r (sort_by ref_leb rs)
      ∙ ap (λ o. if is_named group key r then joined r.required o else o) (wanted-sort_by rs)

  delete_other :
      (r : SecretRef) (m : List SecretRef)
      → is_named group key r ≡ false
      → wanted group key (delete (same_secret r) m) ≡ wanted group key m
  unfolding wanted delete select
  delete_other r [] h = refl
  delete_other r (x ∷ m) h = elim (Bool-cases (same_secret r x)) [
    | inl same ↦
        let at_group = eq_of_text_eq x.group r.group (ground arith) in
        let at_key = eq_of_text_eq x.key r.key (ground arith) in
        let other : is_named group key x ≡ false = rw (at_group, at_key) h in
        rw (same, other) (delete_other r m h)
    | inr differs ↦ rw differs (ground (arith, delete_other r m h))
  ]

  both-joined : (a : Bool) (o q : Option Bool) → both (joined a o) q ≡ both o (joined a q)
  both-joined a none none = refl
  both-joined a none (some c) = refl
  both-joined a (some b) none = ground arith
  both-joined a (some b) (some c) = ground arith

absent_secret :
    (r : SecretRef) (m : List SecretRef)
    → any (same_secret r) m ≡ false
    → (wanted r.group r.key m ≡ none) × (old_required r m ≡ false)
unfolding wanted old_required
absent_secret r [] h = (refl, refl)
absent_secret r (x ∷ m) h =
    let rest = absent_secret r m (ground arith) in (ground (arith, rest.0), ground (arith, rest.1))

deleted_secret :
    (r : SecretRef) (m : List SecretRef) → wanted r.group r.key (delete (same_secret r) m) ≡ none
unfolding wanted delete select
deleted_secret r [] = refl
deleted_secret r (x ∷ m) = ground (arith, deleted_secret r m)

-- The map's entry says what the references before it have asked.
put_same :
    (r : SecretRef) (m : List SecretRef)
    → IsDistinct m
    → joined r.required (wanted r.group r.key m) ≡ some (r.required || old_required r m)
unfolding wanted old_required
put_same r [] d = ground arith
put_same r (x ∷ m) (here, rest) = elim (Bool-cases (same_secret r x)) [
  | inl same ↦
      let at_group = eq_of_text_eq x.group r.group (ground arith) in
      let at_key = eq_of_text_eq x.key r.key (ground arith) in
      let gone : wanted r.group r.key m ≡ none =
        subst (λ g. wanted g r.key m ≡ none) at_group
          (subst (λ k. wanted x.group k m ≡ none) at_key (absent_secret x m here).0) in
      rw (same, gone) refl
  | inr differs ↦ rw differs (put_same r m rest)
]

put_own :
    (r : SecretRef) (m : List SecretRef)
    → IsDistinct m
    → wanted r.group r.key (put_ref r m) ≡ joined r.required (wanted r.group r.key m)
unfolding put_ref wanted
put_own r m d =
    rw (text_eq_refl r.group, text_eq_refl r.key, deleted_secret r m) (sym (put_same r m d))

put_other :
    (group key : Text) (r : SecretRef) (m : List SecretRef)
    → is_named group key r ≡ false
    → wanted group key (put_ref r m) ≡ wanted group key m
unfolding put_ref wanted
put_other group key r m other = rw other (delete_other group key r m other)

wanted-put_ref :
    (group key : Text) (r : SecretRef) (m : List SecretRef)
    → IsDistinct m
    → wanted group key (put_ref r m) ≡ wanted group key (r ∷ m)
unfolding wanted
wanted-put_ref group key r m d = elim (Bool-cases (is_named group key r)) [
  | inl named ↦
      let at_group = eq_of_text_eq r.group group (ground arith) in
      let at_key = eq_of_text_eq r.key key (ground arith) in
      rw named (
        subst (λ g. wanted g key (put_ref r m) ≡ joined r.required (wanted g key m)) at_group
          (subst (λ k. wanted r.group k (put_ref r m) ≡ joined r.required (wanted r.group k m))
            at_key (put_own r m d)))
  | inr other ↦ rw other (put_other group key r m other)
]

any-delete_secret :
    (p q : SecretRef → Bool) (m : List SecretRef) → any p m ≡ false → any p (delete q m) ≡ false
unfolding delete select
any-delete_secret p q [] h = refl
any-delete_secret p q (x ∷ m) h = ground (arith, any-delete_secret p q m)

deleted_none :
    (r : SecretRef) (m : List SecretRef) → any (same_secret r) (delete (same_secret r) m) ≡ false
unfolding delete select
deleted_none r [] = refl
deleted_none r (x ∷ m) = ground (arith, deleted_none r m)

delete-IsDistinct :
    (q : SecretRef → Bool) (m : List SecretRef) → IsDistinct m → IsDistinct (delete q m)
unfolding delete select
delete-IsDistinct q [] d = tt
delete-IsDistinct q (x ∷ m) (here, rest) = elim (Bool-cases (q x)) [
  | inl gone ↦ rw gone (delete-IsDistinct q m rest)
  | inr kept ↦ rw kept (any-delete_secret (same_secret x) q m here, delete-IsDistinct q m rest)
]

put_ref-IsDistinct : (r : SecretRef) (m : List SecretRef) → IsDistinct m → IsDistinct (put_ref r m)
unfolding put_ref
put_ref-IsDistinct r m d = (deleted_none r m, delete-IsDistinct (same_secret r) m d)

wanted-merged :
    (group key : Text) (m rs : List SecretRef)
    → IsDistinct m
    → wanted group key (merged m rs) ≡ both (wanted group key m) (wanted group key rs)
unfolding merged wanted
wanted-merged group key m [] d = none_more (wanted group key m)
  where
    none_more : (o : Option Bool) → o ≡ both o none
    none_more none = refl
    none_more (some b) = refl
wanted-merged group key m (r ∷ rs) d =
    wanted-merged group key (put_ref r m) rs (put_ref-IsDistinct r m d)
    ∙ ap (λ o. both o (wanted group key rs)) (wanted-put_ref group key r m d)
    ∙ moved (is_named group key r)
  where
    moved :
        (b : Bool)
        → both
            (if b then joined r.required (wanted group key m) else wanted group key m)
            (wanted group key rs)
          ≡ both
              (wanted group key m)
              (if b then joined r.required (wanted group key rs) else wanted group key rs)
    moved true = both-joined group key r.required (wanted group key m) (wanted group key rs)
    moved false = refl

text_eq_sym : (a b : Text) → text_eq a b ≡ text_eq b a
unfolding text_eq
text_eq_sym [] [] = refl
text_eq_sym [] (y ∷ b) = refl
text_eq_sym (x ∷ a) [] = refl
text_eq_sym (x ∷ a) (y ∷ b) = ground (arith, text_eq_sym a b)

any-insert_by :
    (p : SecretRef → Bool) (r : SecretRef) (rs : List SecretRef)
    → any p (insert_by ref_leb r rs) ≡ any p (r ∷ rs)
unfolding insert_by
any-insert_by p r [] = refl
any-insert_by p r (x ∷ rs) = elim (Bool-cases (ref_leb r x)) [
  | inl le ↦ rw le refl
  | inr gt ↦ rw gt (ground (arith, any-insert_by p r rs))
]

insert_by-IsDistinct :
    (r : SecretRef) (rs : List SecretRef)
    → any (same_secret r) rs ≡ false
    → IsDistinct rs
    → IsDistinct (insert_by ref_leb r rs)
unfolding insert_by
insert_by-IsDistinct r [] new d = (refl, tt)
insert_by-IsDistinct r (x ∷ rs) new (here, rest) = elim (Bool-cases (ref_leb r x)) [
  | inl le ↦ rw le (new, (here, rest))
  | inr gt ↦ rw gt (
    ground (
      arith,
      any-insert_by (same_secret x) r rs,
      text_eq_sym r.group x.group,
      text_eq_sym r.key x.key,
    ),
    insert_by-IsDistinct r rs (ground arith) rest,
  )
]

any-sort_by : (p : SecretRef → Bool) (rs : List SecretRef) → any p (sort_by ref_leb rs) ≡ any p rs
unfolding sort_by
any-sort_by p [] = refl
any-sort_by p (r ∷ rs) = any-insert_by p r (sort_by ref_leb rs) ∙ ground (arith, any-sort_by p rs)

sort_by-IsDistinct : (rs : List SecretRef) → IsDistinct rs → IsDistinct (sort_by ref_leb rs)
unfolding sort_by
sort_by-IsDistinct [] d = tt
sort_by-IsDistinct (r ∷ rs) (here, rest) =
    insert_by-IsDistinct r (sort_by ref_leb rs) (any-sort_by (same_secret r) rs ∙ here)
      (sort_by-IsDistinct rs rest)

merged-IsDistinct : (m rs : List SecretRef) → IsDistinct m → IsDistinct (merged m rs)
unfolding merged
merged-IsDistinct m [] d = d
merged-IsDistinct m (r ∷ rs) d = merged-IsDistinct (put_ref r m) rs (put_ref-IsDistinct r m d)

-- References that are all valid have a normal form, in which no two references name the same secret;
-- and it asks for exactly the secrets that the references ask for, each as required if and only if
-- one of the references requires it.
pub wanted-normalize_secret_refs :
    (refs out : List SecretRef)
    → normalize_secret_refs refs ≡ some out
    → (group key : Text) → (wanted group key out ≡ wanted group key refs) × IsDistinct out
unfolding normalize_secret_refs wanted
wanted-normalize_secret_refs refs out h group key = elim (Bool-cases (all_valid refs)) [
  | inl v ↦
      let made : sort_by ref_leb (merged [] refs) ≡ out = ground (arith, v) in
      (
        ap (wanted group key) (sym made)
            ∙ wanted-sort_by group key (merged [] refs)
            ∙ wanted-merged group key [] refs tt,
        subst IsDistinct made (sort_by-IsDistinct (merged [] refs) (merged-IsDistinct [] refs tt)),
      )
  | inr bad ↦ absurd (ground (arith, bad))
]
