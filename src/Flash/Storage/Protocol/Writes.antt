-- ===== src/Flash/Storage/Protocol/Writes.antt =====
-- What one conditional write does to the jobs' states: a step of one job, or nothing.
use long_haul.Prelude.{
  ◌≡◌, sym, ap, inl, inr, Option, some, arith, Bool-cases, Text, ◌==◌, eq_of_==,
}
use mathlib.Core.Path.{subst}
use long_haul.Prelude.Results.{ok}
use long_haul.Flash.Clock.{Exec}
use long_haul.Flash.Storage.{JobState, Content, Services}
use long_haul.Flash.Storage.Protocol.{
  Evolves, stays, Evolves-trans, job_in, View, job_at, Follows, Wrote, MayWrite,
}

module _ {World Etag Handle Json : Type 0} {given : Services World Etag Handle Json}
    {view : View World Etag} where
  pub Follows-refl : (w : World) → Follows given view w w
  Follows-refl w = record { job = λ name. stays }

  pub Follows-trans :
      (u v w : World) → Follows given view u v → Follows given view v w → Follows given view u w
  Follows-trans u v w h k = record {
    job = λ name. Evolves-trans given.validate_contract (h.job name) (k.job name);
  }

  -- What was written is a step of one job.
  Wrote-Follows :
      {before : World → Type 0} (name : Text) (content : Content) (w v : World)
      → ((u : World)
          → before u
          → Evolves given.validate_contract (job_at given view u name) (job_in (some content)))
      → Wrote given view before name content w v
      → Follows given view w v
  Wrote-Follows name content w v step wrote = record { job = at }
    where
      Later : Option JobState → Option JobState → Type 0
      Later = Evolves given.validate_contract

      around :
          (other : Text)
          → Later (job_at given view wrote.at other) (job_at given view wrote.after other)
          → Later (job_at given view w other) (job_at given view v other)
      around other h =
          Evolves-trans given.validate_contract (wrote.start.job other)
            (Evolves-trans given.validate_contract h (wrote.end.job other))

      here : Later (job_at given view w name) (job_at given view v name)
      here = around name (
          subst (λ o. Later (job_at given view wrote.at name) o) (sym (ap job_in wrote.written))
            (step wrote.at wrote.replaced))

      at : (other : Text) → Later (job_at given view w other) (job_at given view v other)
      at other = elim (Bool-cases (other == name)) [
        | inl same ↦
            subst (λ n. Later (job_at given view w n) (job_at given view v n))
              (sym (eq_of_== other name same)) here
        | inr different ↦ around other (
            subst (λ o. Later (job_at given view wrote.at other) o)
              (sym (ap job_in (wrote.others other different))) stays)
      ]

  pub MayWrite-Follows :
      {before : World → Type 0} (name : Text) (content : Content) (m : Exec World (Unit {0}))
      (w : World)
      → ((u : World)
          → before u
          → Evolves given.validate_contract (job_at given view u name) (job_in (some content)))
      → MayWrite given view before name content m w
      → Follows given view w (m w).1
  MayWrite-Follows name content m w step (inl wrote) =
      Wrote-Follows name content w (m w).1 step wrote
  MayWrite-Follows name content m w step (inr lost) = lost.0

  -- After a write that returned, the job has gone on from what was written.
  pub MayWrite-stored :
      {before : World → Type 0} (name : Text) (content : Content) (m : Exec World (Unit {0}))
      (w : World)
      → (m w).0 ≡ ok tt
      → MayWrite given view before name content m w
      → Evolves given.validate_contract (job_in (some content)) (job_at given view (m w).1 name)
  MayWrite-stored name content m w returned (inl wrote) =
      subst (λ o. Evolves given.validate_contract o (job_at given view (m w).1 name))
        (ap job_in wrote.written) (wrote.end.job name)
  MayWrite-stored name content m w returned (inr lost) = absurd (ground (arith, lost.1))
