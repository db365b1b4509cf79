-- ===== src/Base/Deletions.antt =====
-- DELETE … WHERE on a table, in one turn and in several.
use mathlib.Core.Path.{◌≡◌, refl, ap}
use mathlib.Core.Logic.{inl, inr}
use mathlib.Core.Bool.{Bool, true, false, not, ◌&&◌, ◌||◌}
use mathlib.Core.List.{List, [], ◌∷◌}
use native.Mathlib.Omega.{arith}
use monitord.Base.Tests.{Bool-cases}
use monitord.Base.Lists.{All, any}
use monitord.Base.Table.{find, select, delete, All-imp}

module _ {A : Type 0} where
  -- A deletion that spares the selected rows.
  pub select-delete :
      (k q : A → Bool) (rs : List A)
      → All (λ r. k r ≡ true → q r ≡ false) rs
      → select k (delete q rs) ≡ select k rs
  unfolding select delete
  select-delete k q [] h = refl
  select-delete k q (r ∷ rs) h = ground (arith, select-delete k q rs h.1)

  pub any-select : (p k : A → Bool) (rs : List A) → any (λ r. p r && k r) rs ≡ any p (select k rs)
  unfolding select
  any-select p k [] = refl
  any-select p k (r ∷ rs) = ground (arith, any-select p k rs)

  pub any-of_member : (rs : List A) → All (λ r. (p : A → Bool) → p r ≡ true → any p rs ≡ true) rs
  any-of_member [] = tt
  any-of_member (r ∷ rs) = (
    (λ p e. ground arith),
    All-imp (λ r. (p : A → Bool) → p r ≡ true → any p rs ≡ true) _ rs
        (λ x found p e. ground (arith, found p e)) (any-of_member rs),
  )

  pub any-select-found :
      (p q : A → Bool) (rs : List A)
      → any p (select q rs) ≡ true
      → (r : A) × (p r ≡ true) × (q r ≡ true)
  unfolding select
  any-select-found p q [] h = absurd (ground arith)
  any-select-found p q (r ∷ rs) h = elim (Bool-cases (q r && p r)) [
    | inl e ↦ (r, ground arith, ground arith)
    | inr e ↦ any-select-found p q rs (ground arith)
  ]

  -- A row is found among the rows that are kept.
  pub find-select_kept :
      (q k : A → Bool) (rs : List A)
      → ((r : A) → q r ≡ true → k r ≡ true)
      → find q (select k rs) ≡ find q rs
  unfolding find select
  find-select_kept q k [] h = refl
  find-select_kept q k (r ∷ rs) h = ground (arith, h r, find-select_kept q k rs h)

  pub select-cong :
      (k l : A → Bool) (rs : List A) → ((r : A) → k r ≡ l r) → select k rs ≡ select l rs
  unfolding select
  select-cong k l [] h = refl
  select-cong k l (r ∷ rs) h = ground (arith, h r, select-cong k l rs h)

  pub delete-cong :
      (p q : A → Bool) (rs : List A) → ((r : A) → p r ≡ q r) → delete p rs ≡ delete q rs
  unfolding delete
  delete-cong p q rs h = select-cong (λ r. not (p r)) (λ r. not (q r)) rs (λ r. ap not (h r))

  pub delete-delete :
      (p q : A → Bool) (rs : List A) → delete q (delete p rs) ≡ delete (λ r. p r || q r) rs
  unfolding delete select
  delete-delete p q [] = refl
  delete-delete p q (r ∷ rs) = ground (arith, delete-delete p q rs)

  pub delete-never : (rs : List A) → delete (λ _. false) rs ≡ rs
  unfolding delete select
  delete-never [] = refl
  delete-never (r ∷ rs) = ap (λ (x : List A). r ∷ x) (delete-never rs)

  -- A row that is selected in two turns.
  pub any-turns :
      (b p q : A → Bool) (rs : List A)
      → (any b (select p rs) || any b (select q (delete p rs)))
        ≡ any b (select (λ r. p r || q r) rs)
  unfolding delete select
  any-turns b p q [] = refl
  any-turns b p q (r ∷ rs) = ground (arith, any-turns b p q rs)

  pub any-never : (b : A → Bool) (rs : List A) → any b (select (λ _. false) rs) ≡ false
  unfolding select
  any-never b [] = refl
  any-never b (r ∷ rs) = any-never b rs
