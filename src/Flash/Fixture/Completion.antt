-- ===== src/Flash/Fixture/Completion.antt =====
-- What a completion commits, and what a raising method leaves alone.
use long_haul.Prelude.{
  ◌+◌, ◌<◌, ◌≡◌, refl, inl, inr, true, false, Option, none, some, arith, Option-cases, Text, eq_iff,
}
use long_haul.Prelude.Results.{Result, ok, err, Result-cases}
use long_haul.Flash.Clock.{Clock}
use long_haul.Flash.Fixture.{
  Delivery, Injected, Fixture, require_lease, require_current, renew, abandon, complete,
  complete_json, completed_result,
}

-- Two objects that differ at most in how often the clock was read.
pub record SameJob (s t : Fixture) : Type 0 where
  pub job_id : s.job_id ≡ t.job_id
  pub contract : s.contract ≡ t.contract
  pub lease_seconds : s.lease_seconds ≡ t.lease_seconds
  pub started_at : s.started_at ≡ t.started_at
  pub attempt_number : s.attempt_number ≡ t.attempt_number
  pub current : s.current ≡ t.current
  pub accepted_result_json : s.accepted_result_json ≡ t.accepted_result_json
  pub completed : s.completed ≡ t.completed

-- If the call raised, the job is the one before it.
abbrev pub KeepsOnError {ℓ} : {A : Type ℓ} → Fixture → Result A × Fixture → Type 0
KeepsOnError s (ok a, t) = Unit
KeepsOnError s (err e, t) = SameJob t s

-- d is the current lease under that id, and the clock's n-th value is before its expiry.
pub record Holds (clock : Clock) (lease_id : Text) (s : Fixture) (d : Delivery) : Type 0 where
  pub open_job : s.completed ≡ false
  pub current : s.current ≡ some d
  pub same_id : d.lease_id ≡ lease_id
  pub unexpired : clock s.reads < d.lease_expires_at

module _ {Json : Type 0} (given : Injected Json) where
  require_lease-SameJob :
      (lease_id : Text) (o : Option Delivery) (s : Fixture)
      → SameJob (require_lease given lease_id o s).1 s
  unfolding require_lease
  require_lease-SameJob lease_id none s = ground arith
  require_lease-SameJob lease_id (some d) s = ground arith

  pub require_current-SameJob :
      (lease_id : Text) (s : Fixture) → SameJob (require_current given lease_id s).1 s
  unfolding require_current
  require_current-SameJob lease_id s = ground (arith, require_lease-SameJob lease_id s.current s)

  require_lease-ok :
      (lease_id : Text) (o : Option Delivery) (s : Fixture) (d : Delivery)
      → (require_lease given lease_id o s).0 ≡ ok d
      → (o ≡ some d)
        × (d.lease_id ≡ lease_id)
        × (given.clock s.reads < d.lease_expires_at)
        × ((require_lease given lease_id o s).1.reads ≡ s.reads + 1)
  unfolding require_lease
  require_lease-ok lease_id none s d h = cc
  require_lease-ok lease_id (some c) s d h = ground (arith, eq_iff c.lease_id lease_id)

  pub require_current-ok :
      (lease_id : Text) (s : Fixture) (d : Delivery)
      → (require_current given lease_id s).0 ≡ ok d
      → Holds given.clock lease_id s d × ((require_current given lease_id s).1.reads ≡ s.reads + 1)
  unfolding require_current
  require_current-ok lease_id s d h = ground (arith, require_lease-ok lease_id s.current s d)

  -- A renewal, an abandonment or a completion that raises changes nothing of the job.
  pub error-SameJob :
      (lease_id : Text) (result : Json) (s : Fixture)
      → KeepsOnError s (renew given lease_id s)
        × KeepsOnError s (abandon given lease_id s)
        × KeepsOnError s (complete given lease_id result s)
  unfolding renew abandon complete
  error-SameJob lease_id result s =
      let once = require_current-SameJob lease_id s in
      let twice = require_current-SameJob lease_id (require_current given lease_id s).1 in
      (ground (arith, once), ground (arith, once), ground (arith, once, twice))

  module _ (lease_id : Text) (s : Fixture) (json : Text) (v : Option Json) where
    commit-ok :
        (d : Delivery)
        → (require_current given lease_id s).0 ≡ ok d
        → (complete_json given lease_id (some json) s).0 ≡ ok v
        → s.completed ≡ false
        → (given.clock (s.reads + 1) < d.lease_expires_at)
          × (given.verifier s.contract (given.loads json) ≡ ok true)
          × (v ≡ some (given.loads json))
          × ((complete_json given lease_id (some json) s).1.completed ≡ true)
          × ((complete_json given lease_id (some json) s).1.accepted_result_json ≡ some json)
          × ((complete_json given lease_id (some json) s).1.current ≡ some d)
    unfolding completed_result
    commit-ok d first h is_open =
        let middle = (require_current given lease_id s).1 in
        let same = require_current-SameJob lease_id s in
        let same' = require_current-SameJob lease_id middle in
        let held = require_current-ok lease_id s d first in
        elim (Result-cases (require_current given lease_id middle).0) [
          | inl (d', e) ↦ let held' = require_current-ok lease_id middle d' e in ground (arith)
          | inr (f, e) ↦ ground (arith)
        ]

    commit-holds :
        (complete_json given lease_id (some json) s).0 ≡ ok v
        → s.completed ≡ false
        → (d : Delivery) × ((require_current given lease_id s).0 ≡ ok d)
    commit-holds h is_open = elim (Result-cases (require_current given lease_id s).0) [
      | inl (d, e) ↦ (d, e)
      | inr (f, e) ↦ absurd (ground arith)
    ]

  -- A completion that returns on an open job was made under the current lease, which was unexpired
  -- before and after the verifier accepted the normalised result, and it stored that result.
  pub complete-commits :
      (lease_id : Text) (result : Json) (s : Fixture) (v : Option Json)
      → s.completed ≡ false
      → (complete given lease_id result s).0 ≡ ok v
      → (json : Text) × (d : Delivery) × (given.dumps result ≡ some json)
        × Holds given.clock lease_id s d
        × (given.clock (s.reads + 1) < d.lease_expires_at)
        × (given.verifier s.contract (given.loads json) ≡ ok true)
        × (v ≡ some (given.loads json))
        × ((complete given lease_id result s).1.completed ≡ true)
        × ((complete given lease_id result s).1.accepted_result_json ≡ some json)
        × ((complete given lease_id result s).1.current ≡ some d)
  unfolding complete
  complete-commits lease_id result s v is_open h = elim (Option-cases (given.dumps result)) [
    | inl e ↦ absurd (ground arith)
    | inr (json, e) ↦
        let ran = rw e at h in
        let (d, first) = commit-holds lease_id s json v ran is_open in
        let held = (require_current-ok lease_id s d first).0 in
        let facts = commit-ok lease_id s json v d first ran is_open in
        rw e (json, d, refl, held, facts.0, facts.1, facts.2, facts.3, facts.4, facts.5)
  ]
