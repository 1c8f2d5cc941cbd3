-- ===== src/Flash/Storage/History.antt =====
-- Whatever a process calls, in whatever order, while others are at work.
use long_haul.Prelude.{ℕ, ◌≤◌, ◌≡◌, Option, some, List, [], ◌∷◌, Text}
use long_haul.Prelude.Results.{ok}
use long_haul.Work.Contracts.{WorkContract}
use long_haul.Flash.Storage.{Services, Adapter}
use long_haul.Flash.Storage.Protocol.{Evolves, View, job_at, IsDocumented}
use long_haul.Flash.Storage.{FlashStorageOptions}
use long_haul.Flash.Storage.Claiming.{enqueue, claim}
use long_haul.Flash.Storage.Holding.{renew, abandon}
use long_haul.Flash.Storage.Completing.{complete, completed_result}
use long_haul.Flash.Storage.Notices.{recover_notifications}
use long_haul.Flash.Storage.Protocol.Keyed.{IsKeyed}
use long_haul.Flash.Storage.Protocol.Sound.{
  AcceptedAs, OfJob, UnlessAbsent, IsSound, accepted_kept, Evolves-IsSound, generation-le,
}
use long_haul.Flash.Storage.Protocol.Notices.{recover_notifications-Kept}
use long_haul.Flash.Storage.Protocol.Claims.{claim-Kept}
use long_haul.Flash.Storage.Protocol.Enqueue.{enqueue-Kept}
use long_haul.Flash.Storage.Protocol.Leases.{renew-Kept, abandon-Kept}
use long_haul.Flash.Storage.Protocol.Completion.{complete-Holds}
use long_haul.Flash.Storage.Protocol.Accepted.{IsAccepted}
use long_haul.Flash.Storage.Protocol.Rules.{
  Later, Later-IsPreorder, Kept, bind-Kept, forget, pure-Kept,
}
use long_haul.Flash.Storage.Protocol.ReadWrite.{read-Holds}

-- The calls that a process may make.
pub data Request (Json : Type 0) : Type 0 where
  enqueuing : Text → WorkContract → Request Json
  claiming recovering : Request Json
  renewing abandoning : Text → Request Json
  completing : Text → Json → Request Json
  asking : Text → Request Json

module _ {World Etag Handle Json : Type 0} (given : Services World Etag Handle Json)
    (options : FlashStorageOptions) where
  -- A call, whose result or exception goes to the caller.
  abbrev pub perform : Request Json → Adapter World Handle → Adapter World Handle
  perform (enqueuing job_id contract) s = (enqueue given options job_id contract s).1
  perform claiming s = (claim given options s).1
  perform recovering s = (recover_notifications given options s).1
  perform (renewing token) s = (renew given options token s).1
  perform (abandoning token) s = (abandon given options token s).1
  perform (completing token result) s = (complete given options token result s).1
  perform (asking job_id) s = (completed_result given options job_id s).1

  -- The calls one after the other.
  unfoldable pub serve : List (Request Json) → Adapter World Handle → Adapter World Handle
  serve [] s = s
  serve (request ∷ requests) s = serve requests (perform request s)

module _ {World Etag Handle Json : Type 0} (given : Services World Etag Handle Json)
    (view : View World Etag) (documented : IsDocumented given view)
    (options : FlashStorageOptions) where
  completed_result-Kept :
      (s : Adapter World Handle) (job_id : Text)
      → Kept given view documented (completed_result given options job_id) s
  unfolding completed_result
  completed_result-Kept s job_id =
      bind-Kept given view documented s
        (forget given view documented s (read-Holds given view documented s job_id))
        λ found t later. pure-Kept given view documented t _

  perform-Later :
      (request : Request Json) (s : Adapter World Handle)
      → IsKeyed s.claims
      → Later given view documented s (perform given options request s)
  perform-Later (enqueuing job_id contract) s keyed =
      (enqueue-Kept given view documented options s job_id contract).keeps
  perform-Later claiming s keyed = (claim-Kept given view documented options s).keeps
  perform-Later recovering s keyed =
      (recover_notifications-Kept given view documented options s).keeps
  perform-Later (renewing token) s keyed =
      (renew-Kept given view documented options s token keyed).keeps
  perform-Later (abandoning token) s keyed =
      (abandon-Kept given view documented options s token keyed).keeps
  perform-Later (completing token result) s keyed =
      (complete-Holds given view documented options s token result keyed).keeps
  perform-Later (asking job_id) s keyed = (completed_result-Kept s job_id).keeps

  serve-Later :
      (requests : List (Request Json)) (s : Adapter World Handle)
      → IsKeyed s.claims
      → Later given view documented s (serve given options requests s)
  unfolding serve
  serve-Later [] s keyed = (Later-IsPreorder given view documented).stay s
  serve-Later (request ∷ requests) s keyed =
      let first = perform-Later request s keyed in
      (Later-IsPreorder given view documented).follow s (perform given options request s) _ first
        (serve-Later requests (perform given options request s) (first.keyed keyed))

  -- Whatever a process calls, however the calls end, and whatever other processes that follow the
  -- protocol do meanwhile: what becomes of each job's stored state is a sequence of protocol steps.
  pub serve-Evolves :
      (requests : List (Request Json)) (s : Adapter World Handle) (name : Text)
      → IsKeyed s.claims
      → Evolves given.validate_contract
          (job_at given view s.world name)
          (job_at given view (serve given options requests s).world name)
  serve-Evolves requests s name keyed = (serve-Later requests s keyed).world.job name

  -- An accepted result is final: after any calls, with other processes at work, the job is stored
  -- with the same result, generation and claim.
  pub serve-accepted :
      (requests : List (Request Json)) (s : Adapter World Handle) (name result_json : Text)
      (generation : Option ℕ) (claim_hash : Option Text)
      → IsKeyed s.claims
      → OfJob (λ j. AcceptedAs j result_json generation claim_hash) (job_at given view s.world name)
      → OfJob
          (λ j. AcceptedAs j result_json generation claim_hash)
          (job_at given view (serve given options requests s).world name)
  serve-accepted requests s name result_json generation claim_hash keyed =
      accepted_kept given.validate_contract result_json generation claim_hash
        (serve-Evolves requests s name keyed)

  -- A job that is absent or sound is so after any calls, with other processes at work: its attempts
  -- are within the contract's budget and as many as its generations, it is not both accepted and
  -- ended, an accepted result belongs to the last generation, and exactly an accepted job is
  -- announced or about to be.
  pub serve-IsSound :
      (requests : List (Request Json)) (s : Adapter World Handle) (name : Text)
      → IsKeyed s.claims
      → UnlessAbsent (IsSound given.validate_contract) (job_at given view s.world name)
      → UnlessAbsent
          (IsSound given.validate_contract)
          (job_at given view (serve given options requests s).world name)
  serve-IsSound requests s name keyed =
      Evolves-IsSound given.validate_contract (serve-Evolves requests s name keyed)

  -- A generation is never taken back.
  pub serve-generation :
      (requests : List (Request Json)) (s : Adapter World Handle) (name : Text) (n : ℕ)
      → IsKeyed s.claims
      → OfJob (λ j. n ≤ j.generation) (job_at given view s.world name)
      → OfJob
          (λ j. n ≤ j.generation)
          (job_at given view (serve given options requests s).world name)
  serve-generation requests s name n keyed =
      generation-le given.validate_contract n (serve-Evolves requests s name keyed)

  -- A completion that returns gives back the result in its canonical form, and then the job is
  -- stored with that form accepted for the caller's token: also when the claim was lost, when the
  -- acceptance was an earlier one, and with other processes at work.
  pub complete-IsAccepted :
      (s : Adapter World Handle) (token : Text) (result value : Json)
      → IsKeyed s.claims
      → (complete given options token result s).0 ≡ ok value
      → (result_json : Text) × (given.dumps result ≡ some result_json)
        × (value ≡ given.loads result_json)
        × IsAccepted given view documented options token result_json
            (complete given options token result s).1
  complete-IsAccepted s token result value keyed =
      (complete-Holds given view documented options s token result keyed).ensures value
