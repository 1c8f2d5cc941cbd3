-- ===== src/Flash/Fixture/History.antt =====
-- Whole histories of calls on one fixture.
use long_haul.Prelude.{
  ℕ, ◌+◌, ◌≤◌, ◌<◌, ◌≡◌, refl, ◌∙◌, inl, inr, Bool, true, false, Option, none, some, List, [], ◌∷◌,
  ◌++◌, arith, if◌then◌else◌, is_some, Text, codes, ◌==◌,
}
use long_haul.Prelude.Results.{ok, err, lease_error, Result-cases, is_ok}
use long_haul.Work.Contracts.{WorkContract}
use long_haul.Flash.Fixture.{
  Delivery, Injected, Fixture, deadline, create, grant, claim_unleased, claim, require_lease,
  require_current, renew, abandon, complete,
}
use long_haul.Flash.Fixture.Leases.{
  IsSound, EndsBy, claim-IsSound, renew-IsSound, abandon-IsSound, complete-IsSound,
}
use long_haul.Flash.Fixture.Completion.{require_current-SameJob, require_current-ok}

pub data Call (Json : Type 0) : Type 0 where
  claiming : Call Json
  renewing abandoning : Text → Call Json
  completing : Text → Json → Call Json

module _ {Json : Type 0} (given : Injected Json) where
  -- The object after one call; what the call returns or raises goes to its caller.
  unfoldable pub perform : Call Json → Fixture → Fixture
  unfolding claim renew abandon complete
  perform claiming s = (claim given s).1
  perform (renewing lease_id) s = (renew given lease_id s).1
  perform (abandoning lease_id) s = (abandon given lease_id s).1
  perform (completing lease_id result) s = (complete given lease_id result s).1

  unfoldable pub perform_all : List (Call Json) → Fixture → Fixture
  unfolding perform
  perform_all [] s = s
  perform_all (c ∷ cs) s = perform_all cs (perform c s)

  abbrev granted : Call Json → Fixture → ℕ
  granted claiming s = if is_some (claim given s).0 then 1 else 0
  granted _ s = 0

  -- How many of the calls are claims that returned a delivery.
  unfoldable pub grants : List (Call Json) → Fixture → ℕ
  unfolding claim
  grants [] s = 0
  grants (c ∷ cs) s = granted c s + grants cs (perform c s)

  perform-IsSound : (c : Call Json) (s : Fixture) → IsSound s → IsSound (perform c s)
  unfolding perform
  perform-IsSound claiming s h = claim-IsSound given s h
  perform-IsSound (renewing i) s h = renew-IsSound given i s h
  perform-IsSound (abandoning i) s h = abandon-IsSound given i s h
  perform-IsSound (completing i r) s h = complete-IsSound given i r s h

  pub perform_all-IsSound :
      (cs : List (Call Json)) (s : Fixture) → IsSound s → IsSound (perform_all cs s)
  unfolding perform_all
  perform_all-IsSound [] s h = h
  perform_all-IsSound (c ∷ cs) s h = perform_all-IsSound cs (perform c s) (perform-IsSound c s h)

  grant_unleased-count :
      (s : Fixture) (o : Option Delivery)
      → (claim_unleased given s o).1.attempt_number
        ≡ (if is_some (claim_unleased given s o).0 then s.attempt_number + 1 else s.attempt_number)
  unfolding claim_unleased grant
  grant_unleased-count s none = refl
  grant_unleased-count s (some d) = ground arith

  -- The fields that no call changes, and the count of attempts.
  record Counted (c : Call Json) (s t : Fixture) : Type 0 where
    attempts : t.attempt_number ≡ s.attempt_number + granted c s
    budget : t.contract ≡ s.contract

  contract-grant_unleased :
      (s : Fixture) (o : Option Delivery) → (claim_unleased given s o).1.contract ≡ s.contract
  unfolding claim_unleased grant
  contract-grant_unleased s none = refl
  contract-grant_unleased s (some d) = ground arith

  perform-Counted : (c : Call Json) (s : Fixture) → Counted c s (perform c s)
  unfolding perform claim renew abandon complete
  perform-Counted claiming s =
      let t = record s { reads = s.reads + 1 } in
      ground (arith, grant_unleased-count t s.current, contract-grant_unleased t s.current)
  perform-Counted (renewing i) s = ground (arith, require_current-SameJob given i s)
  perform-Counted (abandoning i) s = ground (arith, require_current-SameJob given i s)
  perform-Counted (completing i r) s = ground (
    arith,
    require_current-SameJob given i s,
    require_current-SameJob given i (require_current given i s).1,
  )

  attempts-perform_all :
      (cs : List (Call Json)) (s : Fixture)
      → ((perform_all cs s).attempt_number ≡ s.attempt_number + grants cs s)
        × ((perform_all cs s).contract ≡ s.contract)
  unfolding perform_all grants
  attempts-perform_all [] s = (omega arith, refl)
  attempts-perform_all (c ∷ cs) s =
      ground (arith, perform-Counted c s, attempts-perform_all cs (perform c s))

  create-IsSound :
      (job_id : Text) (contract : WorkContract) (lease_seconds : ℕ) (s : Fixture)
      → create given job_id contract lease_seconds ≡ ok s
      → IsSound s × (s.attempt_number ≡ 0) × (s.contract ≡ contract)
  unfolding create
  create-IsSound job_id contract lease_seconds s h = ground arith

  -- From the creation of a fixture, whatever is called in whatever order, the claims that return a
  -- delivery are at most the budget's max_attempts, and the current lease, if there is one, never
  -- ends after the deadline.
  pub grants-le-max_attempts :
      (job_id : Text) (contract : WorkContract) (lease_seconds : ℕ) (s : Fixture)
      (cs : List (Call Json))
      → create given job_id contract lease_seconds ≡ ok s
      → (grants cs s ≤ contract.budget.max_attempts)
        × EndsBy (deadline (perform_all cs s)) (perform_all cs s).current
  grants-le-max_attempts job_id contract lease_seconds s cs h =
      let start = create-IsSound job_id contract lease_seconds s h in
      let sound = perform_all-IsSound cs s start.0 in
      (ground (arith, attempts-perform_all cs s), sound.within_deadline)

  perform-completed :
      (c : Call Json) (s : Fixture)
      → s.completed ≡ true
      → ((perform c s).completed ≡ true)
        × ((perform c s).accepted_result_json ≡ s.accepted_result_json)
  unfolding perform claim renew abandon complete require_current
  perform-completed claiming s h = ground arith
  perform-completed (renewing i) s h = ground arith
  perform-completed (abandoning i) s h = ground arith
  perform-completed (completing i r) s h = ground arith

  -- Once a job is completed, no history of calls changes its accepted result, and no further
  -- delivery is granted.
  pub completed_forever :
      (cs : List (Call Json)) (s : Fixture)
      → s.completed ≡ true
      → ((perform_all cs s).accepted_result_json ≡ s.accepted_result_json)
        × ((perform_all cs s).completed ≡ true)
        × (grants cs s ≡ 0)
  unfolding perform_all grants claim
  completed_forever [] s h = (refl, h, refl)
  completed_forever (c ∷ cs) s h =
      let step = perform-completed c s h in
      let rest = completed_forever cs (perform c s) step.0 in
      (rest.0 ∙ step.1, rest.1, ground (arith, rest))

  abbrev pub holds : Text → Option Delivery → Bool
  holds lease_id none = false
  holds lease_id (some d) = d.lease_id == lease_id

  -- The factory gives no later attempt that lease id.
  abbrev pub IsRetired : Text → Fixture → Type 0
  IsRetired lease_id s =
      (k : ℕ)
      → s.attempt_number < k
      → (given.id_factory (codes "lease-" ++ given.decimal k) == lease_id) ≡ false

  module _ (lease_id : Text) where
    grant_unleased-holds :
        (s : Fixture) (o : Option Delivery)
        → (given.id_factory (codes "lease-" ++ given.decimal (s.attempt_number + 1)) == lease_id)
          ≡ false
        → holds lease_id s.current ≡ false
        → holds lease_id (claim_unleased given s o).1.current ≡ false
    unfolding claim_unleased grant
    grant_unleased-holds s none fresh h = fresh
    grant_unleased-holds s (some d) fresh h = ground arith

    renew-holds :
        (i : Text) (s : Fixture)
        → holds lease_id s.current ≡ false
        → holds lease_id (renew given i s).1.current ≡ false
    unfolding renew
    renew-holds i s h = elim (Result-cases (require_current given i s).0) [
      | inl (d, e) ↦ ground (arith, require_current-ok given i s d e)
      | inr (f, e) ↦ ground (arith, require_current-SameJob given i s)
    ]

    perform-holds :
        (c : Call Json) (s : Fixture)
        → (given.id_factory (codes "lease-" ++ given.decimal (s.attempt_number + 1)) == lease_id)
          ≡ false
        → holds lease_id s.current ≡ false
        → holds lease_id (perform c s).current ≡ false
    unfolding perform claim abandon complete
    perform-holds claiming s fresh h =
        ground (arith, grant_unleased-holds (record s { reads = s.reads + 1 }) s.current)
    perform-holds (renewing i) s fresh h = renew-holds i s h
    perform-holds (abandoning i) s fresh h = ground (arith, require_current-SameJob given i s)
    perform-holds (completing i r) s fresh h = ground (
      arith,
      require_current-SameJob given i s,
      require_current-SameJob given i (require_current given i s).1,
    )

    perform_all-holds :
        (cs : List (Call Json)) (s : Fixture)
        → IsRetired lease_id s
        → holds lease_id s.current ≡ false
        → holds lease_id (perform_all cs s).current ≡ false
    unfolding perform_all
    perform_all-holds [] s retired h = h
    perform_all-holds (c ∷ cs) s retired h =
        perform_all-holds cs (perform c s)
          (λ k later. retired k (omega (arith, (perform-Counted c s).attempts)))
          (perform-holds c s (retired (s.attempt_number + 1) (omega arith)) h)

    refused-unheld :
        (s : Fixture)
        → holds lease_id s.current ≡ false
        → (require_current given lease_id s).0 ≡ err lease_error
    unfolding require_current require_lease
    refused-unheld s h = ground arith

    complete-unheld :
        (r : Json) (s : Fixture)
        → holds lease_id s.current ≡ false
        → is_ok (complete given lease_id r s).0 ≡ false
    unfolding complete
    complete-unheld r s h = ground (arith, refused-unheld s h)

    -- A lease that is not the current one, and whose id the factory gives to no later attempt, is
    -- dead for good: after any calls its holder's renewal and abandonment raise LeaseError, and its
    -- completion raises whatever the result is.
    pub stale_lease :
        (cs : List (Call Json)) (s : Fixture) (r : Json)
        → IsRetired lease_id s
        → holds lease_id s.current ≡ false
        → ((renew given lease_id (perform_all cs s)).0 ≡ err lease_error)
          × ((abandon given lease_id (perform_all cs s)).0 ≡ err lease_error)
          × (is_ok (complete given lease_id r (perform_all cs s)).0 ≡ false)
    unfolding renew abandon
    stale_lease cs s r retired h =
        let unheld = perform_all-holds cs s retired h in
        let refused = refused-unheld (perform_all cs s) unheld in
        (
          ground (arith, refused),
          ground (arith, refused),
          complete-unheld r (perform_all cs s) unheld,
        )
