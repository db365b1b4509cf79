-- ===== src/Storage/Invariant.antt =====
-- The invariant of the tables that the generation fence rests on.
pub mod Moves
pub mod Operations
pub mod Activation
pub mod Redeploy
pub mod Beside
use mathlib.Core.Option
use monitord.Base.{
  ℕ, ◌+◌, ◌≤◌, ◌<◌, Text, ◌≡◌, ◌≢◌, refl, ◌⊎◌, inl, inr, Bool, true, false, Option, none, some,
  List, All, arith,
}
use monitord.Base.Table.{find, count}
use monitord.Storage.Schema.{
  Deployment, DeploymentStatus, active, inactive, archived, Generation, Transaction, Store, has_id,
  is_generation,
}

-- A live generation is the active one of its deployment.
abbrev pub IsFenced : List Deployment → Generation → Type 0
IsFenced ds g =
    g.is_live ≡ true
    → (d : Deployment) × (find (has_id g.deployment_id) ds ≡ some d)
      × (d.active_generation ≡ g.generation)

-- A deployment that is not active has no active generation.
abbrev pub IsQuiet : Deployment → Type 0
IsQuiet d = (d.status ≡ active) ⊎ (d.active_generation ≡ 0)

-- Every deployment that is found by its ID is quiet.
abbrev pub AllQuiet : List Deployment → Type 0
AllQuiet ds = (id : Text) (d : Deployment) → find (has_id id) ds ≡ some d → IsQuiet d

pub record Inv (s : Store) : Type 0 where
  pub fenced : All (IsFenced s.deployments) s.generations
  pub numbered : All (λ g. 0 < g.generation) s.generations
  -- The primary key of `deployments`.
  pub unique : (id : Text) → count (has_id id) s.deployments ≤ 1
  pub quiet : AllQuiet s.deployments
