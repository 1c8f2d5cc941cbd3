-- ===== src/Flash/Storage/Protocol/Completion.antt =====
-- complete follows the protocol, and what it returns is accepted for good.
use long_haul.Prelude.{◌≡◌, refl, true, Option, none, some, arith, nat_eq_iff, Text}
use mathlib.Core.Path.{subst}
use long_haul.Prelude.Results.{ok, err, lease_error, verification_error}
use long_haul.Work.Contracts.{WorkContract}
use long_haul.Flash.Exec.{raise}
use long_haul.Flash.Exec.Rules
use long_haul.Flash.Exec.Rules.{IsPreorder, Holds}
use long_haul.Flash.Storage.{JobState, Services, Adapter}
use long_haul.Flash.Storage.Protocol.{JobStep, accepts, View, IsDocumented}
use long_haul.Flash.Storage.{FlashStorageOptions, ClaimContext}
use long_haul.Flash.Storage.Holding.{holds_hash}
use long_haul.Flash.Storage.Completing.{
  accepting, canonical_result, complete_unknown, complete_accepted, accept, complete_open,
  complete_with, complete,
}
use long_haul.Flash.Storage.Notices.{recover_notifications}
use long_haul.Flash.Storage.Protocol.{accepted}
use long_haul.Flash.Storage.Protocol.Notices.{recover_notifications-Kept}
use long_haul.Flash.Storage.Protocol.Leases.{IsHeld, require_claim-Holds}
use long_haul.Flash.Storage.Protocol.Keyed.{IsKeyed, get-IsKeyed}
use long_haul.Prelude.Dict.{get}
use long_haul.Flash.Storage.Protocol.Rules.{Later, Later-IsPreorder, call_bind, bind-Kept, forget}
use long_haul.Flash.Storage.Protocol.ReadWrite.{HasRead, read-Holds, write-Holds}
use long_haul.Flash.Storage.Protocol.Accepted.{
  IsAccepted, IsAccepted-since, return-IsAccepted, finish-Holds, write_claim_index-Kept,
}
use long_haul.Flash.Storage.Protocol.Lookup.{
  FoundFor, find_accepted-Holds, holds_hash-ok, holds_number-ok, found-IsAccepted,
}

module _ {World Etag Handle Json : Type 0} (given : Services World Etag Handle Json)
    (view : View World Etag) (documented : IsDocumented given view)
    (options : FlashStorageOptions) where
  Completes : Text → Text → Json → Adapter World Handle → Type 0
  Completes token result_json value t =
      (value ≡ given.loads result_json)
      × IsAccepted given view documented options token result_json t

  complete_unknown-Holds :
      (s : Adapter World Handle) (token result_json : Text)
      → Holds
          (Later given view documented)
          (complete_unknown given options token result_json)
          s
          (Completes token result_json)
  unfolding complete_unknown Completes
  complete_unknown-Holds s token result_json =
      Rules.bind-Holds (Later-IsPreorder given view documented)
        {P = FoundFor given view documented options token} s
        (find_accepted-Holds given view documented options s token)
        λ found t later from.
          Rules.guard_bind (Later-IsPreorder given view documented) t _ _ λ same.
            return-IsAccepted given view documented options t token result_json
              (recover_notifications given options)
              (found-IsAccepted given view documented options t token result_json found
                (ground arith) from)
              (recover_notifications-Kept given view documented options t)

  complete_accepted-Holds :
      (s : Adapter World Handle) (context : ClaimContext Handle) (token : Text)
      (found : JobState × Etag) (result_json : Text)
      → HasRead given view documented context.job_id found s
      → Holds
          (Later given view documented)
          (complete_accepted given options context token found.0 result_json)
          s
          (Completes token result_json)
  unfolding complete_accepted Completes
  complete_accepted-Holds s context token found result_json has =
      Rules.choose-Holds (Later-IsPreorder given view documented) s _ _ (raise lease_error)
        (λ same. finish-Holds given view documented options s context token result_json (
          IsAccepted-since given view documented options token result_json context.job_id
            (some context.generation) s found.0
            (
              holds_hash-ok given view documented options found.0.accepted_result_json result_json
                  (ground arith),
              holds_number-ok given view documented options found.0.accepted_generation
                  context.generation (ground arith),
              holds_hash-ok given view documented options found.0.accepted_claim_hash
                  (given.token_hash token) (ground arith),
            )
            has.since))
        (λ _. Rules.raise-Holds (Later-IsPreorder given view documented) s lease_error)

  -- The acceptance is a step of the protocol when the claim is held.
  accepting-step :
      (context : ClaimContext Handle) (state : JobState) (token result_json : Text)
      → context.token ≡ token
      → IsHeld given view documented options context state
      → JobStep given.validate_contract state
          (accepting context (given.token_hash token) result_json state)
  accepting-step context state token result_json own held =
      let same : accepted state context.attempt_id (given.token_hash token) result_json
          ≡ accepting context (given.token_hash token) result_json state =
        ground (arith, held.own, nat_eq_iff state.generation context.generation) in
      let lease : state.lease_id ≡ some (given.token_hash token) =
        holds_hash-ok given view documented options state.lease_id (given.token_hash token) (
          subst (λ k. holds_hash state.lease_id (given.token_hash k) ≡ true) own
            (ground (arith, held.own))) in
      subst (JobStep given.validate_contract state) same (
        accepts context.attempt_id (given.token_hash token) result_json held.contract held.now
          held.valid (ground (arith, held.own)) held.alive lease)

  accept-Holds :
      (s : Adapter World Handle) (context : ClaimContext Handle) (token : Text)
      (contract : WorkContract) (result_json : Text)
      → context.token ≡ token
      → Holds
          (Later given view documented)
          (accept given options context token contract result_json)
          s
          (Completes token result_json)
  unfolding accept Completes
  accept-Holds s context token contract result_json own =
      let hash = given.token_hash token in
      Rules.bind-Holds (Later-IsPreorder given view documented)
        {P = HasRead given view documented context.job_id} s
        (read-Holds given view documented s context.job_id)
        λ found t later has.
          bind-Kept given view documented t
            (forget given view documented t
              (require_claim-Holds given view documented options t context found.0))
            λ _ u l1.
              bind-Kept given view documented u
                (write_claim_index-Kept given view documented options u _)
                λ _ v l2.
                  Rules.bind-Holds (Later-IsPreorder given view documented)
                    {P = HasRead given view documented context.job_id} v
                    (read-Holds given view documented v context.job_id)
                    λ fresh x l3 now.
                      Rules.bind-Holds (Later-IsPreorder given view documented)
                        {P = λ _ _. IsHeld given view documented options context fresh.0} x
                        (require_claim-Holds given view documented options x context fresh.0)
                        λ _ y l4 held.
                          Rules.bind-Holds (Later-IsPreorder given view documented)
                            {P = λ _ z.
                              IsAccepted given view documented options token result_json z}
                            y
                            (Rules.weaken-Holds (Later-IsPreorder given view documented) y
                              (write-Holds given view documented y context.job_id fresh.0
                                (accepting context hash result_json fresh.0) fresh.1 now.version
                                now.own (accepting-step context fresh.0 token result_json own held)
                                refl)
                              (λ _ z _ since.
                                IsAccepted-since given view documented options token result_json
                                  context.job_id (some context.generation) z
                                  (accepting context hash result_json fresh.0) (refl, refl, refl)
                                  since))
                            λ _ z l5 a.
                              finish-Holds given view documented options z context token result_json
                                a

  complete_open-Holds :
      (s : Adapter World Handle) (context : ClaimContext Handle) (token : Text) (state : JobState)
      (result_json : Text)
      → context.token ≡ token
      → Holds
          (Later given view documented)
          (complete_open given options context token state result_json)
          s
          (Completes token result_json)
  unfolding complete_open
  complete_open-Holds s context token state result_json own =
      bind-Kept given view documented s
        (forget given view documented s
          (require_claim-Holds given view documented options s context state))
        λ _ t later. Rules.lift_bind (Later-IsPreorder given view documented) t _ λ contract valid.
          call_bind given view documented t _ (documented.verifier_quiet contract _)
            λ verified u after came.
              Rules.guard_bind (Later-IsPreorder given view documented) u _ _
                λ passed. accept-Holds u context token contract result_json own

  complete_with-Holds :
      (s : Adapter World Handle) (token result_json : Text) (context : Option (ClaimContext Handle))
      → ((c : ClaimContext Handle) → context ≡ some c → c.token ≡ token)
      → Holds
          (Later given view documented)
          (complete_with given options token result_json context)
          s
          (Completes token result_json)
  complete_with-Holds s token result_json none own = complete_unknown-Holds s token result_json
  complete_with-Holds s token result_json (some context) own =
      Rules.bind-Holds (Later-IsPreorder given view documented)
        {P = HasRead given view documented context.job_id} s
        (read-Holds given view documented s context.job_id)
        λ found t later has.
          Rules.choose-Holds (Later-IsPreorder given view documented) t _ _ _
            (λ _. complete_accepted-Holds t context token found result_json has)
            (λ _. complete_open-Holds t context token found.0 result_json (own context refl))

  pub complete-Holds :
      (s : Adapter World Handle) (token : Text) (result : Json)
      → IsKeyed s.claims
      → Holds (Later given view documented) (complete given options token result) s (λ value t.
        (result_json : Text) × (given.dumps result ≡ some result_json)
        × (value ≡ given.loads result_json)
        × IsAccepted given view documented options token result_json t)
  unfolding complete canonical_result Completes
  complete-Holds s token result keyed =
      Rules.gets_bind (Later-IsPreorder given view documented) s _
        (λ (x : Adapter World Handle). x.claims)
        (Rules.lift_bind (Later-IsPreorder given view documented) s _ λ result_json encoded.
          Rules.weaken-Holds (Later-IsPreorder given view documented) s
            (complete_with-Holds s token result_json (get s.claims token)
              (λ c h. get-IsKeyed s.claims token c keyed h))
            (λ value t _ q.
              (result_json, dumped (given.dumps result) result_json encoded, q.0, q.1)))
    where
      dumped :
          (o : Option Text) (text : Text)
          → elim o [ none ↦ err verification_error | some r ↦ ok r ] ≡ ok text
          → o ≡ some text
      dumped none text e = absurd (ground arith)
      dumped (some r) text e = ground arith
