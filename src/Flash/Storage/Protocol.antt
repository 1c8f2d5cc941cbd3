-- ===== src/Flash/Storage/Protocol.antt =====
-- The abstract protocol of a job's state: what the processes that share the container may make of
-- it, one constructor for each conditional write. The storage service is trusted for its documented
-- behaviour only: a conditional write replaces the version that its ETag names.
pub mod Keyed
pub mod Sound
pub mod Writes
pub mod Rules
pub mod ReadWrite
pub mod Notices
pub mod Enqueue
pub mod Claims
pub mod Leases
pub mod Accepted
pub mod Lookup
pub mod Completion
use long_haul.Prelude.{
  ℕ, zero, suc, ◌+◌, ◌-◌, ◌*◌, ◌/◌, ◌%◌, ◌≤◌, ◌<◌, min, max, ◌≡◌, refl, sym, ap, ◌∙◌, ◌≢◌, ◌↔◌, ◌⊎◌,
  inl, inr, Bool, true, false, not, ◌&&◌, ◌||◌, Option, none, some, List, [], ◌∷◌, ◌++◌, map, arith,
  ltb, leb, nat_eq, if◌then◌else◌, nat_eq_iff, Bool-cases, Option-cases, is_some, is_none, length,
  take, drop, last_items, drop-append, drop-drop, drop-nil, last_items-window, All, select, any,
  all, length-append, length-drop, length-take-le, length-last_items-le, length-select-le,
  any-append, all-append, Text, codes, ◌==◌, ==_refl, eq_of_==, eq_iff, contains, is_distinct,
  contains-append,
}
use long_haul.Prelude.Results.{Result, ok, is_ok}
use long_haul.Work.Contracts.{WorkContract}
use long_haul.Flash.Clock.{Exec}
use long_haul.Flash.Storage.{JobState, new_state, Content, job, Services}
use long_haul.Flash.Storage.Notices.{notified}
use long_haul.Flash.Storage.Claiming.{is_leased, claimed}
use long_haul.Flash.Storage.Holding.{released, extended, lease_end}

-- Neither accepted nor ended.
abbrev pub is_open : JobState → Bool
is_open s = is_none s.accepted_result_json && is_none s.terminal_reason

-- The state with a result accepted under its own generation.
abbrev pub accepted : JobState → Text → Text → Text → JobState
accepted s attempt_id claim_hash result_json = record s {
  accepted_generation = some s.generation;
  accepted_attempt_id = some attempt_id;
  accepted_claim_hash = some claim_hash;
  accepted_result_json = some result_json;
  notification_pending = true;
  notification_sent = false;
}

abbrev pub ended : JobState → Text → JobState
ended s reason = record s { terminal_reason = some reason }

module _ (validate : Text → Result WorkContract) where
  pub data JobStep (s : JobState) : JobState → Type 0 where
    claims :
        (claim_hash : Text) (contract : WorkContract) (now expires : ℕ)
        → validate s.contract ≡ ok contract
        → is_open s ≡ true
        → is_leased s.lease_expires_at (s.started_at + contract.budget.wall_seconds) now ≡ false
        → now < s.started_at + contract.budget.wall_seconds
        → s.attempt_number < contract.budget.max_attempts
        → expires ≤ s.started_at + contract.budget.wall_seconds
        → JobStep s (claimed s claim_hash expires)
    ends : (reason : Text) → is_open s ≡ true → JobStep s (ended s reason)
    renews :
        (contract : WorkContract) (now expiry : ℕ)
        → validate s.contract ≡ ok contract
        → is_open s ≡ true
        → now < lease_end s contract
        → JobStep s (extended s expiry)
    releases : is_open s ≡ true → JobStep s (released s)
    accepts :
        (attempt_id claim_hash result_json : Text) (contract : WorkContract) (now : ℕ)
        → validate s.contract ≡ ok contract
        → is_open s ≡ true
        → now < lease_end s contract
        → s.lease_id ≡ some claim_hash
        → JobStep s (accepted s attempt_id claim_hash result_json)
    notifies : is_some s.accepted_result_json ≡ true → JobStep s (notified s)

  -- What becomes of a job's blob in any number of steps; blobs are not deleted.
  pub data Evolves : Option JobState → Option JobState → Type 0 where
    stays : {o : Option JobState} → Evolves o o
    appears :
        (job_id contract : Text) (started_at : ℕ) {o : Option JobState}
        → Evolves (some (new_state job_id contract started_at)) o
        → Evolves none o
    changes :
        {s t : JobState} {o : Option JobState}
        → JobStep s t
        → Evolves (some t) o
        → Evolves (some s) o

  pub Evolves-trans : {a b c : Option JobState} → Evolves a b → Evolves b c → Evolves a c
  Evolves-trans stays k = k
  Evolves-trans (appears j c t h) k = appears j c t (Evolves-trans h k)
  Evolves-trans (changes s h) k = changes s (Evolves-trans h k)

-- The state of the job in a blob.
abbrev pub job_in : Option Content → Option JobState
job_in (some (job s)) = some s
job_in _ = none

-- The container as it is: the content of each blob, and the content that an ETag stands for.
pub record View (World Etag : Type 0) : Type 0 where
  pub blob : World → Text → Option Content
  pub version : Text → Etag → Content

module _ {World Etag Handle Json : Type 0} (given : Services World Etag Handle Json)
    (view : View World Etag) where
  abbrev pub job_at : World → Text → Option JobState
  job_at w name = job_in (view.blob w name)

  -- A later world, as far as jobs go.
  pub record Follows (w v : World) : Type 0 where
    pub job : (name : Text) → Evolves given.validate_contract (job_at w name) (job_at v name)

  abbrev IsQuiet : {A : Type 0} → Exec World A → Type 0
  IsQuiet m = (w : World) → Follows w (m w).1

  -- A blob was written, while other processes were at work before and after.
  pub record Wrote (before : World → Type 0) (name : Text) (content : Content) (w v : World)
      : Type 0 where
    pub at : World
    pub after : World
    pub start : Follows w at
    pub replaced : before at
    pub written : view.blob after name ≡ some content
    pub others :
        (other : Text) → (other == name) ≡ false → view.blob after other ≡ view.blob at other
    pub end : Follows after v

  -- A blob was read, while other processes were at work before and after.
  pub record Found (name : Text) (content : Content) (w v : World) : Type 0 where
    pub at : World
    pub start : Follows w at
    pub there : view.blob at name ≡ some content
    pub end : Follows at v

  -- A write that was made, or that was refused or lost.
  abbrev pub MayWrite : (World → Type 0) → Text → Content → Exec World (Unit {0}) → World → Type 0
  MayWrite before name content m w =
      Wrote before name content w (m w).1 ⊎ (Follows w (m w).1 × (is_ok (m w).0 ≡ false))

  -- The documented behaviour of the services, with other processes of this program at work.
  pub record IsDocumented : Type 0 where
    pub download_law :
        (name : Text) (w : World) (c : Content) (e : Etag)
        → (given.download name w).0 ≡ ok (c, e)
        → (view.version name e ≡ c) × Found name c w (given.download name w).1
    pub upload_new_law :
        (name : Text) (c : Content) (w : World)
        → MayWrite (λ v. view.blob v name ≡ none) name c (given.upload_new name c) w
    pub upload_matching_law :
        (name : Text) (c : Content) (e : Etag) (w : World)
        → MayWrite
            (λ v. view.blob v name ≡ some (view.version name e))
            name
            c
            (given.upload_matching name c e)
            w
    pub clock_quiet : IsQuiet given.clock
    pub download_quiet : (name : Text) → IsQuiet (given.download name)
    pub list_quiet :
        (prefix : Text) (n : ℕ) (token : Option Text) → IsQuiet (given.list_page prefix n token)
    pub send_quiet : (b : _) → IsQuiet (given.send_message b)
    pub receive_quiet : (n : ℕ) → IsQuiet (given.receive_message n)
    pub update_quiet : (m : _) (receipt : Text) (n : ℕ) → IsQuiet (given.update_message m receipt n)
    pub delete_quiet : (m : _) (receipt : Text) → IsQuiet (given.delete_message m receipt)
    pub token_quiet : IsQuiet given.token_factory
    pub verifier_quiet : (c : WorkContract) (x : Json) → IsQuiet (given.verifier c x)
    pub notifier_quiet :
        (job_id attempt : Text) (x : Json) → IsQuiet (given.notifier job_id attempt x)
