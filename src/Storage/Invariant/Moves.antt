-- ===== src/Storage/Invariant/Moves.antt =====
-- How the invariant follows an update of one deployment with its generations.
use mathlib.Core.Path.{subst}
use monitord.Base.{
  ◌∙◌, sym, Text, ◌≡◌, inl, inr, Bool, true, false, some, List, All, arith, text_eq, eq_of_text_eq,
  Bool-cases, Option-cases, if◌then◌else◌, ap,
}
use monitord.Base.Table.{find, update, find-update, find_sound, All-update_to, All-update, All-imp}
use monitord.Storage.Schema.{Deployment, Generation, has_id}
use monitord.Storage.Generations.{is_live_of}
use monitord.Storage.Invariant.{IsFenced, IsQuiet, AllQuiet}

-- The fence of a generation outside the updated deployment stays, and one of an update that keeps
-- the active generation stays.
pub IsFenced-update :
    (target : Deployment → Bool) (f : Deployment → Deployment) (ds : List Deployment)
    (g : Generation)
    → ((d : Deployment) → (f d).id ≡ d.id)
    → ((d : Deployment)
        → find (has_id g.deployment_id) ds ≡ some d
        → target d ≡ true
        → text_eq d.id g.deployment_id ≡ true
        → g.is_live ≡ true
        → d.active_generation ≡ g.generation
        → (f d).active_generation ≡ g.generation)
    → IsFenced ds g
    → IsFenced (update target f ds) g
IsFenced-update target f ds g keeps same fenced live =
    let (d, found, here) = fenced live in
    let after =
      find-update target (has_id g.deployment_id) f ds
        (λ r. ap (λ (x : Text). text_eq x g.deployment_id) (keeps r)) in
    let key = find_sound (has_id g.deployment_id) ds d found in
    ((if target d then f d else d), ground (arith, after), ground (arith, same d found))

-- A deployment is updated and its live generations are retired.
pub IsFenced-retire :
    (id : Text) (target : Deployment → Bool) (f : Deployment → Deployment)
    (r : Generation → Generation) (ds : List Deployment) (gs : List Generation)
    → ((d : Deployment) → (f d).id ≡ d.id)
    → ((d : Deployment) → target d ≡ true → has_id id d ≡ true)
    → ((g : Generation) → (r g).is_live ≡ false)
    → All (IsFenced ds) gs
    → All (IsFenced (update target f ds)) (update (is_live_of id) r gs)
IsFenced-retire id target f r ds gs keeps within retired =
    All-update_to (IsFenced ds) (IsFenced (update target f ds)) (is_live_of id) r gs
      (λ g hit h live. absurd (ground (arith, retired g)))
      (λ g miss h.
        IsFenced-update target f ds g keeps
          (λ d _ t key live same.
            absurd
              (ground (arith, within d, eq_of_text_eq d.id id, eq_of_text_eq d.id g.deployment_id)))
          h)

-- An update that changes no active generation, beside one that changes no key of a generation.
pub IsFenced-keep :
    (target : Deployment → Bool) (f : Deployment → Deployment) (which : Generation → Bool)
    (r : Generation → Generation) (ds : List Deployment) (gs : List Generation)
    → ((d : Deployment) → (f d).id ≡ d.id)
    → ((d : Deployment) → (f d).active_generation ≡ d.active_generation)
    → ((g : Generation) → (r g).deployment_id ≡ g.deployment_id)
    → ((g : Generation) → (r g).generation ≡ g.generation)
    → ((g : Generation) → (r g).is_live ≡ true → g.is_live ≡ true)
    → All (IsFenced ds) gs
    → All (IsFenced (update target f ds)) (update which r gs)
IsFenced-keep target f which r ds gs keeps same id number live h =
    All-update (IsFenced (update target f ds)) which r gs
      (λ g hit fenced is_live.
        let (d, found, here) = fenced (live g is_live) in
        (d, rw (id g) found, here ∙ sym (number g)))
      (All-imp (IsFenced ds) (IsFenced (update target f ds)) gs
        (λ g fenced.
          IsFenced-update target f ds g keeps (λ d _ t key is_live here. same d ∙ here) fenced)
        h)

-- A live generation of a deployment is the active one of its row.
pub active_of_live :
    (ds : List Deployment) (id : Text) (d : Deployment) (g : Generation)
    → IsFenced ds g
    → g.is_live ≡ true
    → text_eq g.deployment_id id ≡ true
    → find (has_id id) ds ≡ some d
    → d.active_generation ≡ g.generation
active_of_live ds id d g fenced live mine found =
    let (x, there, here) = fenced live in
    let same = eq_of_text_eq g.deployment_id id mine in let known = rw same at there in ground arith

pub AllQuiet-update :
    (target : Deployment → Bool) (f : Deployment → Deployment) (ds : List Deployment)
    → ((d : Deployment) → (f d).id ≡ d.id)
    → ((id : Text) (d : Deployment)
        → find (has_id id) ds ≡ some d
        → target d ≡ true
        → IsQuiet d
        → IsQuiet (f d))
    → AllQuiet ds
    → AllQuiet (update target f ds)
AllQuiet-update target f ds keeps step quiet id d found =
    let after =
      find-update target (has_id id) f ds (λ r. ap (λ (x : Text). text_eq x id) (keeps r)) in
    elim (Option-cases (find (has_id id) ds)) [
      | inl e ↦ absurd (ground (arith, after))
      | inr (x, e) ↦ elim (Bool-cases (target x)) [
        | inl hit ↦
            let same : f x ≡ d = ground (arith, after) in
            subst IsQuiet same (step id x e hit (quiet id x e))
        | inr miss ↦ let same : x ≡ d = ground (arith, after) in subst IsQuiet same (quiet id x e)
      ]
    ]
