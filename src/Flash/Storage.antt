-- ===== src/Flash/Storage.antt =====
-- DurableFlashDelivery (src/long_haul/work/flash_storage.py): its data, and the services that it is
-- given. The children have its methods, and what they ensure.
-- The content of a blob is the model whose JSON it is (pydantic's serialisation is the identity), or
-- bytes that are no such model. Times and lengths of time are whole seconds.
-- Fields that a schema fixes and no code tests are left out.
pub mod Blobs
pub mod Notices
pub mod Claiming
pub mod Holding
pub mod Completing
pub mod Protocol
pub mod History
mod Container
mod Examples
use long_haul.Prelude.{
  ℕ, zero, suc, ◌+◌, ◌-◌, ◌*◌, ◌/◌, ◌%◌, ◌≤◌, ◌<◌, min, max, ◌≡◌, refl, sym, ap, ◌∙◌, ◌≢◌, ◌↔◌, ◌⊎◌,
  inl, inr, Bool, true, false, not, ◌&&◌, ◌||◌, Option, none, some, List, [], ◌∷◌, ◌++◌, map, arith,
  ltb, leb, nat_eq, if◌then◌else◌, nat_eq_iff, Bool-cases, Option-cases, is_some, is_none, length,
  take, drop, last_items, drop-append, drop-drop, drop-nil, last_items-window, All, select, any,
  all, length-append, length-drop, length-take-le, length-last_items-le, length-select-le,
  any-append, all-append, Text, codes, ◌==◌, ==_refl, eq_of_==, eq_iff, contains, is_distinct,
  contains-append,
}
use long_haul.Prelude.Results.{
  Fault, Result, ok, err, value_error, key_error, type_error, runtime_error, lease_error,
  verification_error, lifecycle_error, service_error, ◌>>=◌, ◌>>◌, raise_if, >>=-eq-ok,
  raise_if-eq-ok, Result-cases, is_ok, passed,
}
use long_haul.Prelude.Dict.{
  Dict, get, put, pop, values, get-put, get-pop, keys, contains-keys-put, get-absent,
}
use long_haul.Work.Contracts.{WorkContract}
use long_haul.Flash.Fixture.{Delivery}
use long_haul.Flash.Clock.{Exec}

pub record FlashStorageOptions : Type 0 where
  pub lease_seconds : ℕ
  pub recovery_scan_limit : ℕ
  pub accepted_trigger_drain_limit : ℕ
  pub max_local_claims : ℕ

-- FlashStorageOptions.__post_init__
unfoldable pub build_options : FlashStorageOptions → Result FlashStorageOptions
build_options o = (raise_if (leb o.lease_seconds 0) value_error) >>= λ _.
    (raise_if
      (ltb (min o.recovery_scan_limit (min o.accepted_trigger_drain_limit o.max_local_claims)) 1)
      value_error)
    >>= λ _. ok o

abbrev pub state_version : ℕ
state_version = 1

-- `contract` is the JSON text of the contract's dictionary.
pub record JobState : Type 0 where
  pub schema_version : ℕ
  pub job_id : Text
  pub contract : Text
  pub started_at : ℕ
  pub attempt_number : ℕ
  pub generation : ℕ
  pub lease_id : Option Text
  pub lease_expires_at : Option ℕ
  pub accepted_generation : Option ℕ
  pub accepted_attempt_id : Option Text
  pub accepted_claim_hash : Option Text
  pub accepted_result_json : Option Text
  pub terminal_reason : Option Text
  pub notification_pending : Bool
  pub notification_sent : Bool

-- _JobState(job_id, contract, started_at)
abbrev pub new_state : Text → Text → ℕ → JobState
new_state job_id contract started_at = record {
  schema_version = state_version;
  job_id = job_id;
  contract = contract;
  started_at = started_at;
  attempt_number = 0;
  generation = 0;
  lease_id = none;
  lease_expires_at = none;
  accepted_generation = none;
  accepted_attempt_id = none;
  accepted_claim_hash = none;
  accepted_result_json = none;
  terminal_reason = none;
  notification_pending = false;
  notification_sent = false;
}

pub record ClaimIndex : Type 0 where
  pub schema_version : ℕ
  pub job_id : Text
  pub generation : ℕ
  pub attempt_id : Text
  pub claim_hash : Text
  pub expires_at : ℕ

-- ==
unfoldable pub same_index : ClaimIndex → ClaimIndex → Bool
same_index a b =
    nat_eq a.schema_version b.schema_version
    && (a.job_id == b.job_id)
    && nat_eq a.generation b.generation
    && (a.attempt_id == b.attempt_id)
    && (a.claim_hash == b.claim_hash)
    && nat_eq a.expires_at b.expires_at

pub record NotificationCursor : Type 0 where
  pub schema_version : ℕ
  pub continuation_token : Option Text

pub data Content : Type 0 where
  job : JobState → Content
  claim_index : ClaimIndex → Content
  cursor : NotificationCursor → Content
  foreign : Content

-- A message's content, as far as the tests on it tell: the dictionary of exactly "v" and a text
-- "job_id", another JSON value, or a content that is no text.
pub data Body : Type 0 where
  reference : ℕ → Text → Body
  other_json : Body
  no_text : Body

pub record Message (Handle : Type 0) : Type 0 where
  pub handle : Handle
  pub body : Body
  pub pop_receipt : Option Text

pub record ClaimContext (Handle : Type 0) : Type 0 where
  pub token : Text
  pub job_id : Text
  pub attempt_id : Text
  pub generation : ℕ
  pub queue_message : Message Handle
  pub pop_receipt : Text
  pub delivery : Delivery

-- What the adapter is given: the queue and the container of the storage service, the clock, the
-- token factory, the verifier and the notifier, each of which may do anything to the world; and the
-- JSON codec, the contract's schema and the hash. `download` answers the content with its ETag;
-- `list_page` one page of names under a prefix from a continuation token, with the next token, or
-- `none` when there is no page.
pub record Services (World Etag Handle Json : Type 0) : Type 0 where
  pub clock : Exec World ℕ
  pub download : Text → Exec World (Content × Etag)
  pub upload_new : Text → Content → Exec World (Unit {0})
  pub upload_matching : Text → Content → Etag → Exec World (Unit {0})
  pub list_page : Text → ℕ → Option Text → Exec World (Option (List Text × Option Text))
  pub send_message : Body → Exec World (Unit {0})
  pub receive_message : ℕ → Exec World (Option (Message Handle))
  pub update_message : Message Handle → Text → ℕ → Exec World (Option Text)
  pub delete_message : Message Handle → Text → Exec World (Unit {0})
  pub token_factory : Exec World Text
  pub verifier : WorkContract → Json → Exec World Bool
  pub notifier : Text → Text → Json → Exec World (Unit {0})
  pub dumps : Json → Option Text
  pub loads : Text → Json
  pub dump_contract : WorkContract → Text
  pub validate_contract : Text → Result WorkContract
  pub token_hash : Text → Text
  pub decimal : ℕ → Text

-- The attributes that change: `_claims`. The world is everything outside this process.
pub record Adapter (World Handle : Type 0) : Type 0 where
  pub world : World
  pub claims : Dict (ClaimContext Handle)

-- A call of a service.
unfoldable pub call : {World Handle A : Type 0} → Exec World A → Exec (Adapter World Handle) A
call m s = let (r, w) = m s.world in (r, record s { world = w })

-- _status
unfoldable pub status : Fault → Option ℕ
status (service_error n) = some n
status _ = none

abbrev is_code : ℕ → Option ℕ → Bool
is_code n none = false
is_code n (some m) = nat_eq m n

-- self._status(exc) in (a, b, …)
unfoldable pub status_in : List ℕ → Fault → Bool
unfolding status
status_in statuses e = any (λ n. is_code n (status e)) statuses
