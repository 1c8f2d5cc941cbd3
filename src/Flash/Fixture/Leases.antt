-- ===== src/Flash/Fixture/Leases.antt =====
-- Claims and leases of the fixture: when one is granted, and what holds a lease.
use long_haul.Prelude.{
  ℕ, ◌+◌, ◌≤◌, ◌<◌, ◌≡◌, refl, Bool, true, not, ◌&&◌, Option, none, some, arith, ltb, leb, is_some,
  Text,
}
use long_haul.Flash.Clock.{Clock}
use long_haul.Flash.Fixture.{
  Delivery, Injected, Fixture, deadline, grant, claim_unleased, claim, require_lease,
  require_current, renew, abandon, complete,
}

abbrev pub EndsBy : ℕ → Option Delivery → Type 0
EndsBy limit none = Unit
EndsBy limit (some d) = d.lease_expires_at ≤ limit

-- Attempts stay within the contract's budget, and the current lease ends by its deadline.
pub record IsSound (s : Fixture) : Type 0 where
  pub within_attempts : s.attempt_number ≤ s.contract.budget.max_attempts
  pub within_deadline : EndsBy (deadline s) s.current
  pub result_iff_completed : s.completed ≡ is_some s.accepted_result_json

-- No lease is current, or its expiry is not after the clock's n-th value.
abbrev pub is_free : Clock → ℕ → Option Delivery → Bool
is_free clock n none = true
is_free clock n (some d) = leb d.lease_expires_at (clock n)

abbrev pub may_claim : Clock → Fixture → Bool
may_claim clock s =
    not s.completed
    && ltb (clock s.reads) (deadline s)
    && ltb s.attempt_number s.contract.budget.max_attempts
    && is_free clock (s.reads + 1) s.current

module _ {Json : Type 0} (given : Injected Json) where
  claim_unleased-granted :
      (s : Fixture) (o : Option Delivery)
      → is_some (claim_unleased given s o).0 ≡ is_free given.clock s.reads o
  unfolding claim_unleased grant
  claim_unleased-granted s none = refl
  claim_unleased-granted s (some d) = ground arith

  -- A claim is granted exactly when the job is not completed, the clock is before the deadline,
  -- attempts remain in the budget, and no current lease is still running at the next reading.
  pub claim-granted : (s : Fixture) → is_some (claim given s).0 ≡ may_claim given.clock s
  unfolding claim
  claim-granted s =
      ground (arith, claim_unleased-granted (record s { reads = s.reads + 1 }) s.current)

  grant-IsSound :
      (s : Fixture)
      → s.attempt_number < s.contract.budget.max_attempts
      → IsSound s
      → IsSound (grant given s).1
  unfolding grant
  grant-IsSound s more h = ground arith

  claim_unleased-IsSound :
      (s : Fixture) (o : Option Delivery)
      → s.attempt_number < s.contract.budget.max_attempts
      → IsSound s
      → IsSound (claim_unleased given s o).1
  unfolding claim_unleased grant
  claim_unleased-IsSound s none more h = ground arith
  claim_unleased-IsSound s (some d) more h = ground arith

  pub claim-IsSound : (s : Fixture) → IsSound s → IsSound (claim given s).1
  unfolding claim
  claim-IsSound s h =
      ground (arith, claim_unleased-IsSound (record s { reads = s.reads + 1 }) s.current)

  require_lease-IsSound :
      (lease_id : Text) (s : Fixture)
      → IsSound s
      → (o : Option Delivery) → IsSound (require_lease given lease_id o s).1
  unfolding require_lease
  require_lease-IsSound lease_id s h none = h
  require_lease-IsSound lease_id s h (some d) = ground arith

  require_current-IsSound :
      (lease_id : Text) (s : Fixture) → IsSound s → IsSound (require_current given lease_id s).1
  unfolding require_current
  require_current-IsSound lease_id s h =
      ground (arith, require_lease-IsSound lease_id s h s.current)

  pub renew-IsSound :
      (lease_id : Text) (s : Fixture) → IsSound s → IsSound (renew given lease_id s).1
  unfolding renew
  renew-IsSound lease_id s h = ground (arith, require_current-IsSound lease_id s h)

  pub abandon-IsSound :
      (lease_id : Text) (s : Fixture) → IsSound s → IsSound (abandon given lease_id s).1
  unfolding abandon
  abandon-IsSound lease_id s h = ground (arith, require_current-IsSound lease_id s h)

  pub complete-IsSound :
      (lease_id : Text) (result : Json) (s : Fixture)
      → IsSound s
      → IsSound (complete given lease_id result s).1
  unfolding complete
  complete-IsSound lease_id result s h = ground (
    arith,
    require_current-IsSound lease_id s h,
    require_current-IsSound lease_id (require_current given lease_id s).1,
  )
