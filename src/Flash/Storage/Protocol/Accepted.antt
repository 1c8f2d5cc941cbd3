-- ===== src/Flash/Storage/Protocol/Accepted.antt =====
-- A result that is accepted stays accepted, and what complete does after it was accepted.
use long_haul.Prelude.{ℕ, ◌≡◌, refl, sym, Option, none, some, Text}
use mathlib.Core.Path.{subst}
use long_haul.Flash.Exec.{pure, raise, ◌>>◌}
use long_haul.Flash.Exec.Rules
use long_haul.Flash.Exec.Rules.{IsPreorder, Holds}
use long_haul.Flash.Storage.{JobState, Services, Adapter}
use long_haul.Flash.Storage.Blobs.{M, job_name}
use long_haul.Flash.Storage.Protocol.{Evolves, stays, job_in, View, job_at, IsDocumented}
use long_haul.Flash.Storage.{FlashStorageOptions, ClaimContext, ClaimIndex, claim_index}
use long_haul.Flash.Storage.Blobs.{claim_index_name, write_claim_index}
use long_haul.Flash.Storage.Holding.{drop_claim}
use long_haul.Flash.Storage.Completing.{settle}
use long_haul.Flash.Storage.Notices.{recover_notifications}
use long_haul.Flash.Storage.Protocol.Sound.{AcceptedAs, OfJob, accepted_kept}
use long_haul.Flash.Storage.Protocol.Notices.{recover_notifications-Kept}
use long_haul.Flash.Storage.Protocol.Keyed.{pop-IsKeyed}
use long_haul.Flash.Storage.Protocol.Rules.{
  Later, Later-IsPreorder, modify-Later, download-Holds, upload_new-Holds, Kept, bind-Kept, forget,
  call-Kept, pure-Kept,
}

module _ {World Etag Handle Json : Type 0} (given : Services World Etag Handle Json)
    (view : View World Etag) (documented : IsDocumented given view)
    (options : FlashStorageOptions) where
  -- A job is stored with this result accepted for the claim of the token.
  pub record IsAccepted (token result_json : Text) (t : Adapter World Handle) : Type 0 where
    pub job_id : Text
    pub generation : Option ℕ
    pub stored :
        OfJob
          (λ s. AcceptedAs s result_json generation (some (given.token_hash token)))
          (job_at given view t.world (job_name job_id))

  pub IsAccepted-since :
      (token result_json job_id : Text) (generation : Option ℕ) (t : Adapter World Handle)
      (state : JobState)
      → AcceptedAs state result_json generation (some (given.token_hash token))
      → Evolves given.validate_contract (some state) (job_at given view t.world (job_name job_id))
      → IsAccepted token result_json t
  IsAccepted-since token result_json job_id generation t state a since = record {
    job_id = job_id;
    generation = generation;
    stored =
        accepted_kept given.validate_contract result_json generation (some (given.token_hash token))
          since a;
  }

  pub IsAccepted-Later :
      (token result_json : Text) (t u : Adapter World Handle)
      → Later given view documented t u
      → IsAccepted token result_json t
      → IsAccepted token result_json u
  IsAccepted-Later token result_json t u later a = record {
    job_id = a.job_id;
    generation = a.generation;
    stored =
        accepted_kept given.validate_contract result_json a.generation
          (some (given.token_hash token)) (later.world.job (job_name a.job_id)) a.stored;
  }

  -- The ends of complete: what was accepted is returned after actions that keep it.
  pub return-IsAccepted :
      {B : Type 0} (s : Adapter World Handle) (token result_json : Text) (m : M given B)
      → IsAccepted token result_json s
      → Kept given view documented m s
      → Holds
          (Later given view documented)
          (m >> pure (given.loads result_json))
          s
          (λ value t. (value ≡ given.loads result_json) × IsAccepted token result_json t)
  return-IsAccepted s token result_json m a kept =
      bind-Kept given view documented s kept λ _ t later.
        Rules.pure-Holds (Later-IsPreorder given view documented) t _
          (refl, IsAccepted-Later token result_json s t later a)

  pub settle-Kept :
      (s : Adapter World Handle) (context : ClaimContext Handle)
      → Kept given view documented (settle given options context) s
  unfolding settle drop_claim
  settle-Kept s context =
      bind-Kept given view documented s
        (Rules.catch-Holds (Later-IsPreorder given view documented) s
          (call-Kept given view documented s _ (documented.delete_quiet _ _))
          λ e t later failed.
            Rules.choose-Holds (Later-IsPreorder given view documented) t _ (pure tt) (raise e)
              (λ _. pure-Kept given view documented t tt)
              (λ _. Rules.raise-Holds (Later-IsPreorder given view documented) t e))
        λ _ t later.
          Rules.weaken-Holds (Later-IsPreorder given view documented) t
            (Rules.modify-Holds (Later-IsPreorder given view documented) t _
              (modify-Later given view documented t _ (pop-IsKeyed t.claims context.token)))
            (λ _ _ _ _. tt)

  -- settle, recover_notifications, and the result
  pub finish-Holds :
      (s : Adapter World Handle) (context : ClaimContext Handle) (token result_json : Text)
      → IsAccepted token result_json s
      → Holds
          (Later given view documented)
          (settle given options context
            >> (recover_notifications given options >> pure (given.loads result_json)))
          s
          (λ value t. (value ≡ given.loads result_json) × IsAccepted token result_json t)
  finish-Holds s context token result_json a =
      bind-Kept given view documented s (settle-Kept s context) λ _ t later.
        return-IsAccepted t token result_json (recover_notifications given options)
          (IsAccepted-Later token result_json s t later a)
          (recover_notifications-Kept given view documented options t)

  pub write_claim_index-Kept :
      (s : Adapter World Handle) (index : ClaimIndex)
      → Kept given view documented (write_claim_index given index) s
  unfolding write_claim_index
  write_claim_index-Kept s index =
      Rules.catch-Holds (Later-IsPreorder given view documented) s
        (forget given view documented s (
          upload_new-Holds given view documented s (claim_index_name index.claim_hash)
            (claim_index index)
            (λ u absent.
              subst (λ o. Evolves given.validate_contract (job_in o) none) (sym absent) stays)))
        λ e t later failed.
          Rules.choose-Holds (Later-IsPreorder given view documented) t _ (raise e) _
            (λ _. Rules.raise-Holds (Later-IsPreorder given view documented) t e)
            λ _.
              bind-Kept given view documented t
                (forget given view documented t
                  (download-Holds given view documented t (claim_index_name index.claim_hash)))
                λ downloaded u after.
                  Rules.lift_bind (Later-IsPreorder given view documented) u _ λ existing decoded.
                    Rules.weaken-Holds (Later-IsPreorder given view documented) u
                      (Rules.raise_when-Holds (Later-IsPreorder given view documented) u _ _)
                      (λ _ _ _ _. tt)
