-- ===== src/Flash/Storage/Protocol/Enqueue.antt =====
-- enqueue follows the protocol.
use long_haul.Prelude.{sym, false, some, Text}
use mathlib.Core.Path.{subst}
use long_haul.Work.Contracts.{WorkContract}
use long_haul.Flash.Exec.{pure, raise}
use long_haul.Flash.Exec.Rules
use long_haul.Flash.Exec.Rules.{IsPreorder, Holds}
use long_haul.Flash.Storage.{job, Services, Adapter}
use long_haul.Flash.Storage.Protocol.{Evolves, stays, appears, job_in, View, IsDocumented}
use long_haul.Flash.Storage.{FlashStorageOptions, new_state}
use long_haul.Flash.Storage.Claiming.{check_existing, enqueue}
use long_haul.Flash.Storage.Protocol.Rules.{
  Later-IsPreorder, call_bind, upload_new-Holds, Kept, bind-Kept, forget, call-Kept, pure-Kept,
}
use long_haul.Flash.Storage.Protocol.ReadWrite.{HasRead, read-Holds}

module _ {World Etag Handle Json : Type 0} (given : Services World Etag Handle Json)
    (view : View World Etag) (documented : IsDocumented given view)
    (options : FlashStorageOptions) where
  check_existing-Kept :
      (s : Adapter World Handle) (job_id dump : Text)
      → Kept given view documented (check_existing given options job_id dump) s
  unfolding check_existing
  check_existing-Kept s job_id dump =
      Rules.bind-Holds (Later-IsPreorder given view documented)
        {P = HasRead given view documented job_id} s (read-Holds given view documented s job_id)
        λ found t later has.
          Rules.guard_bind (Later-IsPreorder given view documented) t _ _
            λ same. pure-Kept given view documented t _

  pub enqueue-Kept :
      (s : Adapter World Handle) (job_id : Text) (contract : WorkContract)
      → Kept given view documented (enqueue given options job_id contract) s
  unfolding enqueue
  enqueue-Kept s job_id contract =
      call_bind given view documented s given.clock documented.clock_quiet
        λ started_at t later came.
          Rules.lift_bind (Later-IsPreorder given view documented) t _ λ name named.
            bind-Kept given view documented t
              (Rules.catch-Holds (Later-IsPreorder given view documented) t
                (bind-Kept given view documented t
                  (forget given view documented t (
                    upload_new-Holds given view documented t name
                      (job (new_state job_id (given.dump_contract contract) started_at))
                      (λ u absent.
                        subst
                          (λ o.
                            Evolves given.validate_contract (job_in o)
                              (some (new_state job_id (given.dump_contract contract) started_at)))
                          (sym absent)
                          (appears job_id (given.dump_contract contract) started_at stays))))
                  λ _ u after. pure-Kept given view documented u false)
                λ e u after failed.
                  Rules.choose-Holds (Later-IsPreorder given view documented) u _
                    (check_existing given options job_id (given.dump_contract contract)) (raise e)
                    (λ _. check_existing-Kept u job_id (given.dump_contract contract))
                    (λ _. Rules.raise-Holds (Later-IsPreorder given view documented) u e))
              λ accepted u after.
                Rules.choose-Holds (Later-IsPreorder given view documented) u accepted (pure tt) _
                  (λ _. pure-Kept given view documented u tt)
                  (λ _. call-Kept given view documented u _ (documented.send_quiet _))
