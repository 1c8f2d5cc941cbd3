-- ===== src/Flash/Fixture.antt =====
-- FlashDeliveryFixture (src/long_haul/work/flash_delivery.py): one job, its lease and its result.
-- Parameters, as in the source: the clock, the identifier factory and the verifier, which may raise;
-- the clock and the factory return, so what a raising one would leave behind is not modelled. JSON
-- values are of a parameter type with the encoder (`json.dumps` with sorted keys, `none` when it raises) and
-- the decoder of the standard library.
pub mod Leases
pub mod Completion
pub mod History
mod Examples
use long_haul.Prelude.{
  ℕ, zero, suc, ◌+◌, ◌-◌, ◌*◌, ◌/◌, ◌%◌, ◌≤◌, ◌<◌, min, max, ◌≡◌, refl, sym, ap, ◌∙◌, ◌≢◌, ◌↔◌, ◌⊎◌,
  inl, inr, Bool, true, false, not, ◌&&◌, ◌||◌, Option, none, some, List, [], ◌∷◌, ◌++◌, map, arith,
  ltb, leb, nat_eq, if◌then◌else◌, nat_eq_iff, Bool-cases, Option-cases, is_some, is_none, length,
  take, drop, last_items, All, select, any, all, length-append, length-drop, length-take-le,
  length-last_items-le, length-select-le, any-append, all-append, Text, codes, ◌==◌, ==_refl,
  eq_of_==, eq_iff, contains, is_distinct,
}
use long_haul.Prelude.Results.{
  Fault, Result, ok, err, value_error, key_error, type_error, runtime_error, lease_error,
  verification_error, lifecycle_error, service_error, ◌>>=◌, ◌>>◌, raise_if, >>=-eq-ok,
  raise_if-eq-ok,
}
use long_haul.Flash.Clock.{Clock, Exec}
use long_haul.Work.Contracts.{WorkContract}

pub record Delivery : Type 0 where
  pub job_id : Text
  pub contract_id : Text
  pub attempt_id : Text
  pub lease_id : Text
  pub lease_expires_at : ℕ

-- What the fixture is given and does not implement.
pub record Injected (Json : Type 0) : Type 0 where
  pub clock : Clock
  pub id_factory : Text → Text
  pub verifier : WorkContract → Json → Result Bool
  pub dumps : Json → Option Text
  pub loads : Text → Json
  pub decimal : ℕ → Text

-- The object's attributes; `reads` counts the readings of the clock so far.
pub record Fixture : Type 0 where
  pub job_id : Text
  pub contract : WorkContract
  pub lease_seconds : ℕ
  pub started_at : ℕ
  pub attempt_number : ℕ
  pub current : Option Delivery
  pub accepted_result_json : Option Text
  pub completed : Bool
  pub reads : ℕ

abbrev pub deadline : Fixture → ℕ
deadline s = s.started_at + s.contract.budget.wall_seconds

module _ {Json : Type 0} (given : Injected Json) where
  open given use {clock, id_factory, verifier, dumps, loads, decimal}

  abbrev tick : Fixture → Fixture
  tick s = record s { reads = s.reads + 1 }

  abbrev now : Fixture → ℕ
  now s = clock s.reads

  -- __init__
  unfoldable pub create : Text → WorkContract → ℕ → Result Fixture
  create job_id contract lease_seconds = do
    raise_if (leb lease_seconds 0) value_error
    ok (record {
      job_id = job_id;
      contract = contract;
      lease_seconds = lease_seconds;
      started_at = clock 0;
      attempt_number = 0;
      current = none;
      accepted_result_json = none;
      completed = false;
      reads = 1;
    })

  -- completed_result
  unfoldable pub completed_result : Fixture → Option Json
  completed_result s = elim s.accepted_result_json [ none ↦ none | some json ↦ some (loads json) ]

  -- The end of claim(): the attempt is counted, and a new delivery is current.
  unfoldable pub grant : Fixture → Option Delivery × Fixture
  grant s =
      let number = s.attempt_number + 1 in
      let delivery : Delivery = record {
        job_id = s.job_id;
        contract_id = s.contract.contract_id;
        attempt_id = id_factory (codes "attempt-" ++ decimal number);
        lease_id = id_factory (codes "lease-" ++ decimal number);
        lease_expires_at = min (now s + s.lease_seconds) (deadline s);
      } in
      (
        some delivery,
        record s { attempt_number = number; current = some delivery; reads = s.reads + 1 },
      )

  -- The test of the current lease, which reads the clock only if there is one.
  unfoldable pub claim_unleased : Fixture → Option Delivery → Option Delivery × Fixture
  unfolding grant
  claim_unleased s none = grant s
  claim_unleased s (some d) =
      if ltb (now s) d.lease_expires_at then (none, tick s) else grant (tick s)

  unfoldable pub claim : Fixture → Option Delivery × Fixture
  unfolding claim_unleased
  claim s =
      if s.completed
      then (none, s)
      else if leb (deadline s) (now s)
      then (none, tick s)
      else if leb s.contract.budget.max_attempts s.attempt_number
      then (none, tick s)
      else claim_unleased (tick s) s.current

  unfoldable pub require_lease : Text → Option Delivery → Exec Fixture Delivery
  require_lease lease_id none s = (err lease_error, s)
  require_lease lease_id (some d) s =
      if not (d.lease_id == lease_id)
      then (err lease_error, s)
      else if leb d.lease_expires_at (now s)
      then (err lease_error, tick s)
      else (ok d, tick s)

  -- _require_current
  unfoldable pub require_current : Text → Exec Fixture Delivery
  unfolding require_lease
  require_current lease_id s =
      if s.completed then (err lease_error, s) else require_lease lease_id s.current s

  abbrev renew_current : Result Delivery → Exec Fixture Delivery
  renew_current (err e) s = (err e, s)
  renew_current (ok d) s =
      let renewed = record d { lease_expires_at = min (now s + s.lease_seconds) (deadline s) } in
      (ok renewed, record s { current = some renewed; reads = s.reads + 1 })

  unfoldable pub renew : Text → Exec Fixture Delivery
  unfolding require_current
  renew lease_id s = let (r, s') = require_current lease_id s in renew_current r s'

  abbrev drop_current : Result Delivery → Exec Fixture (Unit {0})
  drop_current (err e) s = (err e, s)
  drop_current (ok d) s = (ok tt, record s { current = none })

  unfoldable pub abandon : Text → Exec Fixture (Unit {0})
  unfolding require_current
  abandon lease_id s = let (r, s') = require_current lease_id s in drop_current r s'

  -- The commit point: the second _require_current has passed.
  abbrev commit : Text → Result Delivery → Exec Fixture (Option Json)
  commit json (err e) s = (err e, s)
  commit json (ok d) s =
      let done = record s { accepted_result_json = some json; completed = true } in
      (ok (completed_result done), done)

  -- A verifier that raises ends the completion.
  abbrev judge : Text → Text → Result Bool → Exec Fixture (Option Json)
  judge lease_id json (err e) s = (err e, s)
  judge lease_id json (ok verified) s =
      if verified
      then (let (r, s') = require_current lease_id s in commit json r s')
      else (err verification_error, s)

  abbrev verify : Text → Text → Result Delivery → Exec Fixture (Option Json)
  verify lease_id json (err e) s = (err e, s)
  verify lease_id json (ok d) s = judge lease_id json (verifier s.contract (loads json)) s

  -- The idempotent retry of the accepted completion.
  abbrev is_same_completion : Text → Text → Fixture → Bool
  is_same_completion lease_id json s =
      elim s.current [ none ↦ false | some d ↦ d.lease_id == lease_id ]
      && elim s.accepted_result_json [ none ↦ false | some accepted ↦ json == accepted ]

  abbrev complete_json : Text → Option Text → Exec Fixture (Option Json)
  complete_json lease_id none s = (err verification_error, s)
  complete_json lease_id (some json) s =
      if s.completed
      then (if is_same_completion lease_id json s
          then (ok (completed_result s), s)
          else (err lease_error, s))
      else (let (r, s') = require_current lease_id s in verify lease_id json r s')

  unfoldable pub complete : Text → Json → Exec Fixture (Option Json)
  unfolding require_current completed_result
  complete lease_id result = complete_json lease_id (dumps result)
