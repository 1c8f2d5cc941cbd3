-- ===== src/Flash/Storage/Protocol/ReadWrite.antt =====
-- _read gives the state of a version, and _write on that version is a step of its job.
use long_haul.Prelude.{◌≡◌, sym, ap, ◌∙◌, some, arith, Text, eq_of_==}
use mathlib.Core.Path.{subst}
use long_haul.Prelude.Results.{ok, lease_error}
use long_haul.Flash.Exec.{raise}
use long_haul.Flash.Exec.Rules
use long_haul.Flash.Exec.Rules.{IsPreorder, Holds}
use long_haul.Flash.Storage.{JobState, Content, job, Services, Adapter}
use long_haul.Flash.Storage.Blobs.{job_name, blob_name, decode_job, read, write, conditional_upload}
use long_haul.Flash.Storage.Protocol.{
  JobStep, Evolves, stays, changes, job_in, View, job_at, IsDocumented,
}
use long_haul.Flash.Storage.Protocol.Writes.{MayWrite-Follows, MayWrite-stored}
use long_haul.Flash.Storage.Protocol.Rules.{
  Later, Later-IsPreorder, call-Holds, Downloaded, download-Holds, decode_job-ok,
}

blob_name-ok : (job_id name : Text) → blob_name job_id ≡ ok name → name ≡ job_name job_id
unfolding blob_name
blob_name-ok job_id name h = ground arith

module _ {World Etag Handle Json : Type 0} (given : Services World Etag Handle Json)
    (view : View World Etag) (documented : IsDocumented given view) where
  -- What _read returned: the version of an ETag, and a state that the job was in.
  pub record HasRead (job_id : Text) (found : JobState × Etag) (t : Adapter World Handle)
      : Type 0 where
    pub version : view.version (job_name job_id) found.1 ≡ job found.0
    pub own : found.0.job_id ≡ job_id
    pub since :
        Evolves given.validate_contract (some found.0) (job_at given view t.world (job_name job_id))

  pub read-Holds :
      (s : Adapter World Handle) (job_id : Text)
      → Holds (Later given view documented) (read given job_id) s (HasRead job_id)
  unfolding read
  read-Holds s job_id =
      Rules.lift_bind (Later-IsPreorder given view documented) s (blob_name job_id) λ name named.
        let same : name ≡ job_name job_id = blob_name-ok job_id name named in
        Rules.bind-Holds (Later-IsPreorder given view documented)
          {P = Downloaded given view documented name} s
          (download-Holds given view documented s name)
          λ downloaded t later came.
            Rules.lift_bind (Later-IsPreorder given view documented) t (decode_job downloaded.0)
              λ state decoded.
                Rules.guard_bind (Later-IsPreorder given view documented) t _ _ λ current.
                  Rules.guard_bind (Later-IsPreorder given view documented) t _ _ λ matching.
                    let content : downloaded.0 ≡ job state =
                      decode_job-ok given view documented downloaded.0 state decoded in
                    Rules.pure-Holds (Later-IsPreorder given view documented) t _ (record {
                      version =
                          subst (λ n. view.version n downloaded.1 ≡ job state) same
                            (came.version ∙ content);
                      own = eq_of_== state.job_id job_id (ground arith);
                      since =
                          subst
                            (λ n.
                              Evolves given.validate_contract (some state)
                                (job_at given view t.world n))
                            same
                            (subst
                              (λ c.
                                Evolves given.validate_contract (job_in (some c))
                                  (job_at given view t.world name))
                              content came.since);
                    })

  -- A conditional write of a step ensures that the job goes on from what was written.
  pub conditional_upload-Holds :
      (s : Adapter World Handle) (name : Text) (content : Content) (e : Etag)
      → ((u : World)
          → view.blob u name ≡ some (view.version name e)
          → Evolves given.validate_contract (job_at given view u name) (job_in (some content)))
      → Holds (Later given view documented) (conditional_upload given name content e) s (λ _ t.
        Evolves given.validate_contract (job_in (some content)) (job_at given view t.world name))
  unfolding conditional_upload
  conditional_upload-Holds s name content e step =
      Rules.catch-Holds (Later-IsPreorder given view documented) s
        (call-Holds given view documented s (given.upload_matching name content e)
          (λ w.
            MayWrite-Follows name content (given.upload_matching name content e) w step
              (documented.upload_matching_law name content e w))
          (λ _ returned.
            MayWrite-stored name content (given.upload_matching name content e) s.world returned
              (documented.upload_matching_law name content e s.world)))
        λ e' t later failed.
          Rules.choose-Holds (Later-IsPreorder given view documented) t _ (raise lease_error)
            (raise e')
            (λ _. Rules.raise-Holds (Later-IsPreorder given view documented) t lease_error)
            (λ _. Rules.raise-Holds (Later-IsPreorder given view documented) t e')

  write-version :
      (name : Text) (e : Etag) (st st' : JobState) (u : World)
      → view.version name e ≡ job st
      → JobStep given.validate_contract st st'
      → view.blob u name ≡ some (view.version name e)
      → Evolves given.validate_contract (job_at given view u name) (some st')
  write-version name e st st' u version step replaced =
      subst (λ o. Evolves given.validate_contract (job_in o) (some st'))
        (sym (replaced ∙ ap some version)) (changes step stays)

  pub write-Holds :
      (s : Adapter World Handle) (job_id : Text) (st st' : JobState) (e : Etag)
      → view.version (job_name job_id) e ≡ job st
      → st.job_id ≡ job_id
      → JobStep given.validate_contract st st'
      → st'.job_id ≡ st.job_id
      → Holds (Later given view documented) (write given st' e) s (λ _ t.
        Evolves given.validate_contract (some st') (job_at given view t.world (job_name job_id)))
  unfolding write
  write-Holds s job_id st st' e found mine step own =
      Rules.lift_bind (Later-IsPreorder given view documented) s (blob_name st'.job_id)
        λ name named.
          let same : job_name job_id ≡ name =
            ap job_name (sym (own ∙ mine)) ∙ sym (blob_name-ok st'.job_id name named) in
          let version : view.version name e ≡ job st =
            subst (λ n. view.version n e ≡ job st) same found in
          let uploaded =
            conditional_upload-Holds s name (job st') e
              (λ u replaced. write-version name e st st' u version step replaced) in
          subst
            (λ n.
              Holds (Later given view documented) (conditional_upload given name (job st') e) s
                (λ _ t. Evolves given.validate_contract (some st') (job_at given view t.world n)))
            (sym same) uploaded
