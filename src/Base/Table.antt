-- ===== src/Base/Table.antt =====
-- A database table as the list of its rows, and the statements that the program runs on one:
-- SELECT of one row, UPDATE … WHERE, DELETE … WHERE and COUNT(*).
use Prim.Native.Nat.{ℕ, ◌≤◌, max}
use mathlib.Core.Path.{◌≡◌, refl, ap}
use mathlib.Core.Bool.{Bool, true, false, not, ◌&&◌}
use mathlib.Core.Option
use mathlib.Core.Option.{Option, none, some}
use mathlib.Core.List.{List, [], ◌∷◌}
use native.Mathlib.Omega.{arith}
use mathlib.Core.Logic.{inl, inr}
use monitord.Base.Tests.{if◌then◌else◌, Bool-cases}
use monitord.Base.Lists.{All, any, length}

module _ {ℓ} {A : Type ℓ} where
  -- SELECT … WHERE p, one row.
  unfoldable pub find : (A → Bool) → List A → Option A
  find p [] = none
  find p (r ∷ rs) = if p r then some r else find p rs

  -- UPDATE … SET f WHERE p.
  unfoldable pub update : (A → Bool) → (A → A) → List A → List A
  update p f [] = []
  update p f (r ∷ rs) = (if p r then f r else r) ∷ update p f rs

  -- The rows that WHERE p selects.
  unfoldable pub select : (A → Bool) → List A → List A
  select p [] = []
  select p (r ∷ rs) = let rest = select p rs in if p r then r ∷ rest else rest

  -- DELETE … WHERE p.
  unfoldable pub delete : (A → Bool) → List A → List A
  delete p = select λ r. not (p r)

  -- SELECT COUNT(*) … WHERE p, and the number of rows that an UPDATE … WHERE p affects.
  unfoldable pub count : (A → Bool) → List A → ℕ
  unfolding select
  count p rs = length (select p rs)

  -- SELECT COALESCE(MAX(key), 0) … WHERE p.
  unfoldable pub max_of : (A → Bool) → (A → ℕ) → List A → ℕ
  max_of p key [] = 0
  max_of p key (r ∷ rs) = let rest = max_of p key rs in if p r then max (key r) rest else rest

  -- An update that keeps the columns which `q` reads acts on the row that `q` finds.
  pub find-update :
      (p q : A → Bool) (f : A → A) (rs : List A)
      → ((r : A) → q (f r) ≡ q r)
      → find q (update p f rs) ≡ Option.map (λ r. if p r then f r else r) (find q rs)
  unfolding find update
  find-update p q f [] keeps = refl
  find-update p q f (r ∷ rs) keeps = ground (arith, keeps r, find-update p q f rs keeps)

  pub find_sound : (q : A → Bool) (rs : List A) (r : A) → find q rs ≡ some r → q r ≡ true
  unfolding find
  find_sound q [] r h = cc
  find_sound q (x ∷ rs) r h = ground (arith, find_sound q rs r)

  pub count-update :
      (p q : A → Bool) (f : A → A) (rs : List A)
      → ((r : A) → q (f r) ≡ q r)
      → count q (update p f rs) ≡ count q rs
  unfolding count select update
  count-update p q f [] keeps = refl
  count-update p q f (r ∷ rs) keeps = ground (arith, keeps r, count-update p q f rs keeps)

  pub All-update {κ} :
      (P : A → Type κ) (p : A → Bool) (f : A → A) (rs : List A)
      → ((r : A) → p r ≡ true → P r → P (f r))
      → All P rs
      → All P (update p f rs)
  unfolding update
  All-update P p f [] step h = tt
  All-update P p f (r ∷ rs) step h = ground (arith, step r, All-update P p f rs step h.1)

  pub All-select {κ} :
      (P : A → Type κ) (p : A → Bool) (rs : List A) → All P rs → All P (select p rs)
  unfolding select
  All-select P p [] h = tt
  All-select P p (r ∷ rs) h = ground (arith, All-select P p rs h.1)

  pub All-find {κ} :
      (P : A → Type κ) (q : A → Bool) (rs : List A) (r : A) → All P rs → find q rs ≡ some r → P r
  unfolding find
  All-find P q [] r h e = cc
  All-find P q (x ∷ rs) r h e = ground (arith, All-find P q rs r h.1)

  -- An update, from a predicate of the rows before to one of the rows after.
  pub All-update_to {κ μ} :
      (P : A → Type κ) (Q : A → Type μ) (p : A → Bool) (f : A → A) (rs : List A)
      → ((r : A) → p r ≡ true → P r → Q (f r))
      → ((r : A) → p r ≡ false → P r → Q r)
      → All P rs
      → All Q (update p f rs)
  unfolding update
  All-update_to P Q p f [] hit miss h = tt
  All-update_to P Q p f (r ∷ rs) hit miss h =
      ground (arith, hit r, miss r, All-update_to P Q p f rs hit miss h.1)

  pub All-imp {κ μ} :
      (P : A → Type κ) (Q : A → Type μ) (rs : List A) → ((r : A) → P r → Q r) → All P rs → All Q rs
  All-imp P Q [] imp h = tt
  All-imp P Q (r ∷ rs) imp h = (imp r h.0, All-imp P Q rs imp h.1)

  count-and-le : (q r : A → Bool) (rs : List A) → count (λ a. q a && r a) rs ≤ count q rs
  unfolding count select
  count-and-le q r [] = omega arith
  count-and-le q r (x ∷ rs) = ground (arith, count-and-le q r rs)

  -- Under a unique key, a statement that affects one row affects the row that the key finds.
  pub find_affected :
      (q r : A → Bool) (rs : List A) (x : A)
      → count q rs ≤ 1
      → count (λ a. q a && r a) rs ≡ 1
      → find q rs ≡ some x
      → r x ≡ true
  unfolding find count select
  find_affected q r [] x unique one h = cc
  find_affected q r (a ∷ rs) x unique one h =
      ground (arith, count-and-le q r rs, find_affected q r rs x)

  -- Under a unique key, a statement affects the one row that the key finds and it accepts.
  pub count_found :
      (q r : A → Bool) (rs : List A) (x : A)
      → count q rs ≤ 1
      → find q rs ≡ some x
      → r x ≡ true
      → count (λ a. q a && r a) rs ≡ 1
  unfolding find count select
  count_found q r [] x unique h k = cc
  count_found q r (a ∷ rs) x unique h k = ground (arith, count-and-le q r rs, count_found q r rs x)

  -- A further condition that the row passes finds the same row.
  pub find_and :
      (q r : A → Bool) (rs : List A) (x : A)
      → count q rs ≤ 1
      → find q rs ≡ some x
      → r x ≡ true
      → find (λ a. q a && r a) rs ≡ some x
  unfolding find count select
  find_and q r [] x unique h k = cc
  find_and q r (a ∷ rs) x unique h k = ground (arith, find_and q r rs x)

  find_and-le :
      (q r : A → Bool) (rs : List A) (x : A) → find (λ a. q a && r a) rs ≡ some x → 1 ≤ count q rs
  unfolding find count select
  find_and-le q r [] x h = cc
  find_and-le q r (a ∷ rs) x h = ground (arith, find_and-le q r rs x)

  -- Under a unique key, a further condition finds the same row.
  pub find_key :
      (q r : A → Bool) (rs : List A) (x : A)
      → count q rs ≤ 1
      → find (λ a. q a && r a) rs ≡ some x
      → find q rs ≡ some x
  unfolding find count select
  find_key q r [] x unique h = cc
  find_key q r (a ∷ rs) x unique h = ground (arith, find_and-le q r rs x, find_key q r rs x)

  pub find_of_not_any : (q : A → Bool) (rs : List A) → any q rs ≡ false → find q rs ≡ none
  unfolding find
  find_of_not_any q [] h = refl
  find_of_not_any q (a ∷ rs) h = ground (arith, find_of_not_any q rs)

  pub count_of_any : (q : A → Bool) (rs : List A) → any q rs ≡ false → count q rs ≡ 0
  unfolding count select
  count_of_any q [] h = refl
  count_of_any q (a ∷ rs) h = ground (arith, count_of_any q rs)

  -- What `find` finds under a test passes every weaker one.
  pub any_of_find :
      (q r : A → Bool) (xs : List A) (x : A)
      → ((a : A) → q a ≡ true → r a ≡ true)
      → find q xs ≡ some x
      → any r xs ≡ true
  unfolding find
  any_of_find q r [] x imp h = cc
  any_of_find q r (a ∷ xs) x imp h = ground (arith, imp a, any_of_find q r xs x imp)

  pub count_of_not_any :
      (q r : A → Bool) (xs : List A)
      → ((a : A) → q a ≡ true → r a ≡ true)
      → any r xs ≡ false
      → count q xs ≡ 0
  unfolding count select
  count_of_not_any q r [] imp h = refl
  count_of_not_any q r (a ∷ xs) imp h = ground (arith, imp a, count_of_not_any q r xs imp)

  pub any_of_found :
      (q r : A → Bool) (xs : List A) (x : A) → find q xs ≡ some x → r x ≡ true → any r xs ≡ true
  unfolding find
  any_of_found q r [] x h k = cc
  any_of_found q r (a ∷ xs) x h k = ground (arith, any_of_found q r xs x)

  pub find-select :
      (q p : A → Bool) (rs : List A) (x : A)
      → find q rs ≡ some x
      → p x ≡ true
      → find q (select p rs) ≡ some x
  unfolding find select
  find-select q p [] x h k = cc
  find-select q p (a ∷ rs) x h k = ground (arith, find-select q p rs x)

  pub count-select-le : (q p : A → Bool) (rs : List A) → count q (select p rs) ≤ count q rs
  unfolding count select
  count-select-le q p [] = omega arith
  count-select-le q p (a ∷ rs) = ground (arith, count-select-le q p rs)

  -- The rows that a selection keeps pass its test.
  pub All-select_to {κ μ} :
      (P : A → Type κ) (Q : A → Type μ) (p : A → Bool) (rs : List A)
      → ((r : A) → p r ≡ true → P r → Q r)
      → All P rs
      → All Q (select p rs)
  unfolding select
  All-select_to P Q p [] keep h = tt
  All-select_to P Q p (r ∷ rs) keep h = ground (arith, keep r, All-select_to P Q p rs keep h.1)

  pub count-update-le :
      (p q : A → Bool) (f : A → A) (rs : List A) (n : ℕ)
      → ((r : A) → q (f r) ≡ q r)
      → count q rs ≤ n
      → count q (update p f rs) ≤ n
  count-update-le p q f rs n keeps h = rw (count-update p q f rs keeps) h

  pub find-of_select :
      (q p : A → Bool) (rs : List A) → find q (select p rs) ≡ find (λ a. q a && p a) rs
  unfolding find select
  find-of_select q p [] = refl
  find-of_select q p (a ∷ rs) = ground (arith, find-of_select q p rs)

  any-le-count : (q w : A → Bool) (rs : List A) → any (λ a. q a && w a) rs ≡ true → 1 ≤ count q rs
  unfolding count select
  any-le-count q w [] h = cc
  any-le-count q w (r ∷ rs) h = ground (arith, any-le-count q w rs)

  pub All-of_none :
      (q w : A → Bool) (rs : List A) → count q rs ≡ 0 → All (λ a. q a ≡ true → w a ≡ true) rs
  unfolding count select
  All-of_none q w [] h = tt
  All-of_none q w (r ∷ rs) h = (λ e. absurd (ground arith), All-of_none q w rs (ground arith))

  -- Under a unique key, what holds of one row with the key holds of all.
  pub All-of_unique :
      (q w : A → Bool) (rs : List A)
      → count q rs ≤ 1
      → any (λ a. q a && w a) rs ≡ true
      → All (λ a. q a ≡ true → w a ≡ true) rs
  unfolding count select
  All-of_unique q w [] unique h = tt
  All-of_unique q w (r ∷ rs) unique h = elim (Bool-cases (q r)) [
    | inl mine ↦
        let rest = All-of_none q w rs (ground arith) in
        (
          λ _. elim (Bool-cases (w r)) [
            | inl good ↦ good
            | inr bad ↦ absurd (ground (arith, any-le-count q w rs))
          ],
          rest,
        )
    | inr other ↦ (λ e. absurd (ground arith), All-of_unique q w rs (ground arith) (ground arith))
  ]

  pub max_of-update :
      (p q : A → Bool) (key : A → ℕ) (f : A → A) (rs : List A)
      → ((r : A) → q (f r) ≡ q r)
      → ((r : A) → key (f r) ≡ key r)
      → max_of q key (update p f rs) ≡ max_of q key rs
  unfolding max_of update
  max_of-update p q key f [] keeps same = refl
  max_of-update p q key f (r ∷ rs) keeps same =
      ground (arith, keeps r, same r, max_of-update p q key f rs keeps same)

  pub update-never : (f : A → A) (rs : List A) → update (λ _. false) f rs ≡ rs
  unfolding update
  update-never f [] = refl
  update-never f (r ∷ rs) = ap (λ (x : List A). r ∷ x) (update-never f rs)
