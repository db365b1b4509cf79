-- ===== src/Tests/Health.antt =====
-- The health of the sample deployment, and a cut in the middle of a code point.
use monitord.Base.{
  ℕ, ◌<◌, ◌≤◌, ◌≡◌, refl, ◌⊎◌, false, none, some, List, [], ◌∷◌, arith, ok, err, text_eq, codes,
  decimal, length, ◌&&◌,
}
use monitord.Base.Table.{find, update, count, select}
use monitord.Utf8.{bounded_text, valid_utf8}
use monitord.Utf8.Bounded.{IsLongest, bounded_text_lem}
use monitord.Storage.Schema.{Store, Deployment, Health, failure, has_id, is_active, is_health}
use monitord.Storage.Health.{RunOutcome, became_unhealthy, record_run, enqueue_notice}
use monitord.Storage.Health.Latch.{Alarm, Follows, record_run-Follows}
use monitord.Tests.Samples.{platform, id, store}

abbrev second_failure : RunOutcome
second_failure = record {
  deployment_id = id;
  generation = 3;
  status = failure;
  duration = 5000000;
  error = 120 ∷ [];
  finished_at = none;
}

alarmed : Store
unfolding record_run bounded_text enqueue_notice find update count select text_eq codes decimal
alarmed = elim (record_run platform second_failure (122 ∷ []) 60 store) [
  | ok (t, s) ↦ s
  | err e ↦ store
]

alarmed_lem :
    record_run platform second_failure (122 ∷ []) 60 store ≡ ok (some became_unhealthy, alarmed)
unfolding alarmed record_run bounded_text enqueue_notice find update count select text_eq codes
    decimal
alarmed_lem = refl

record_run-Follows_example :
    (d : Deployment) × (h : Health) × (find
        (λ d. has_id id d && is_active d.status)
        store.deployments
      ≡ some d)
    × (find (is_health id) store.health ≡ some h)
    × (d.active_generation ≡ 3)
    × Follows d.failure_threshold h failure (some became_unhealthy) id alarmed
unfolding count select text_eq
record_run-Follows_example =
    record_run-Follows platform second_failure (122 ∷ []) 60 store alarmed (some became_unhealthy)
      (omega arith) alarmed_lem

abbrev calm : Alarm
calm = record { failures = 0; latched = false }

-- "aé" is 97, 195, 169: two bytes hold only the first letter.
abbrev letters : List ℕ
letters = 97 ∷ 195 ∷ 169 ∷ []

cut_inside : bounded_text letters 2 ≡ 97 ∷ []
unfolding bounded_text valid_utf8
cut_inside = refl

bounded_text_example :
    ((length letters ≤ 2) × (bounded_text letters 2 ≡ letters))
    ⊎ ((2 < length letters) × IsLongest 2 letters (bounded_text letters 2))
bounded_text_example = bounded_text_lem letters 2
