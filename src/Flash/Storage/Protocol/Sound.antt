-- ===== src/Flash/Storage/Protocol/Sound.antt =====
-- What the protocol guarantees of one job, however many processes take part.
use long_haul.Prelude.{
  ℕ, ◌≤◌, ◌≡◌, refl, Bool, true, false, ◌&&◌, ◌||◌, Option, none, some, arith, nat_eq, nat_eq_iff,
  is_some, is_none, Text,
}
use long_haul.Prelude.Results.{Result, ok}
use long_haul.Work.Contracts.{WorkContract}
use long_haul.Flash.Storage.{JobState, new_state}
use long_haul.Flash.Storage.Protocol.{
  JobStep, claims, ends, renews, releases, accepts, notifies, Evolves, stays, appears, changes,
}

-- The accepted result, its generation and its claim.
abbrev pub AcceptedAs : JobState → Text → Option ℕ → Option Text → Type 0
AcceptedAs s result_json generation claim_hash =
    (s.accepted_result_json ≡ some result_json)
    × (s.accepted_generation ≡ generation)
    × (s.accepted_claim_hash ≡ claim_hash)

-- A statement about a job that is there, and one about a job if it is there.
abbrev pub OfJob : (JobState → Type 0) → Option JobState → Type 0
OfJob P none = ⊥
OfJob P (some s) = P s

abbrev pub UnlessAbsent : (JobState → Type 0) → Option JobState → Type 0
UnlessAbsent P none = Unit
UnlessAbsent P (some s) = P s

abbrev is_number : Option ℕ → ℕ → Bool
is_number none n = false
is_number (some m) n = nat_eq m n

module _ (validate : Text → Result WorkContract) where
  OfJob-kept :
      {a b : Option JobState} (P : JobState → Type 0)
      → ((s t : JobState) → JobStep validate s t → P s → P t)
      → Evolves validate a b
      → OfJob P a
      → OfJob P b
  OfJob-kept P step stays h = h
  OfJob-kept P step (appears j c t k) h = absurd h
  OfJob-kept P step (changes {s} {t} one k) h = OfJob-kept P step k (step s t one h)

  accepted_step :
      {s t : JobState} (r : Text) (g : Option ℕ) (h : Option Text)
      → JobStep validate s t
      → AcceptedAs s r g h
      → AcceptedAs t r g h
  accepted_step r g h (claims _ _ _ _ _ fresh _ _ _ _) a = absurd (ground (arith, a.0))
  accepted_step r g h (ends _ fresh) a = absurd (ground (arith, a.0))
  accepted_step r g h (renews _ _ _ _ fresh _) a = absurd (ground (arith, a.0))
  accepted_step r g h (releases fresh) a = absurd (ground (arith, a.0))
  accepted_step r g h (accepts _ _ _ _ _ _ fresh _ _) a = absurd (ground (arith, a.0))
  accepted_step r g h (notifies _) a = a

  -- Acceptance is final.
  pub accepted_kept :
      {a b : Option JobState} (r : Text) (g : Option ℕ) (h : Option Text)
      → Evolves validate a b
      → OfJob (λ s. AcceptedAs s r g h) a
      → OfJob (λ s. AcceptedAs s r g h) b
  accepted_kept r g h k =
      OfJob-kept (λ s. AcceptedAs s r g h) (λ s t step. accepted_step r g h step) k

  -- A job as it is between the steps.
  pub record IsSound (s : JobState) : Type 0 where
    pub bounded :
        (contract : WorkContract)
        → validate s.contract ≡ ok contract
        → s.attempt_number ≤ contract.budget.max_attempts
    pub counted : s.generation ≡ s.attempt_number
    pub single : (is_some s.accepted_result_json && is_some s.terminal_reason) ≡ false
    pub fenced :
        (is_none s.accepted_result_json || is_number s.accepted_generation s.generation) ≡ true
    pub announced :
        (is_none s.accepted_result_json || s.notification_pending || s.notification_sent) ≡ true
    pub honest :
        ((s.notification_pending || s.notification_sent) && is_none s.accepted_result_json) ≡ false

  new_state-IsSound :
      (job_id contract : Text) (started_at : ℕ) → IsSound (new_state job_id contract started_at)
  new_state-IsSound job_id contract started_at = record {
    bounded = λ c e. omega arith;
    counted = refl;
    single = refl;
    fenced = refl;
    announced = refl;
    honest = refl;
  }

  valid_once :
      {text : Text} (c d : WorkContract) → validate text ≡ ok c → validate text ≡ ok d → c ≡ d
  valid_once c d e f = cc

  step-IsSound : {s t : JobState} → JobStep validate s t → IsSound s → IsSound t
  step-IsSound (claims _ contract _ _ valid fresh _ _ left _) i = record {
    bounded =
        λ c e. let same : contract ≡ c = valid_once contract c valid e in rw (← same) (omega arith);
    counted = omega (arith, i.counted);
    single = ground (arith, i.single);
    fenced = ground arith;
    announced = i.announced;
    honest = i.honest;
  }
  step-IsSound (ends _ fresh) i = record {
    bounded = i.bounded;
    counted = i.counted;
    single = ground arith;
    fenced = i.fenced;
    announced = i.announced;
    honest = i.honest;
  }
  step-IsSound (renews _ _ _ _ _ _) i = record {
    bounded = i.bounded;
    counted = i.counted;
    single = i.single;
    fenced = i.fenced;
    announced = i.announced;
    honest = i.honest;
  }
  step-IsSound (releases _) i = record {
    bounded = i.bounded;
    counted = i.counted;
    single = i.single;
    fenced = i.fenced;
    announced = i.announced;
    honest = i.honest;
  }
  step-IsSound {s} (accepts _ _ _ _ _ _ fresh _ _) i = record {
    bounded = i.bounded;
    counted = i.counted;
    single = ground arith;
    fenced = ground (arith, nat_eq_iff s.generation s.generation);
    announced = refl;
    honest = refl;
  }
  step-IsSound (notifies accepted) i = record {
    bounded = i.bounded;
    counted = i.counted;
    single = i.single;
    fenced = i.fenced;
    announced = ground arith;
    honest = ground arith;
  }

  -- From a container without the job, or with a sound one, on.
  pub Evolves-IsSound :
      {a b : Option JobState}
      → Evolves validate a b
      → UnlessAbsent IsSound a
      → UnlessAbsent IsSound b
  Evolves-IsSound stays h = h
  Evolves-IsSound (appears j c t k) h = Evolves-IsSound k (new_state-IsSound j c t)
  Evolves-IsSound (changes step k) h = Evolves-IsSound k (step-IsSound step h)

  -- The claim that an open job's lease belongs to, and the generation, only grow older.
  pub generation-le :
      {a b : Option JobState} (n : ℕ)
      → Evolves validate a b
      → OfJob (λ s. n ≤ s.generation) a
      → OfJob (λ s. n ≤ s.generation) b
  generation-le n k = OfJob-kept (λ s. n ≤ s.generation) (λ s t step h. grown step h) k
    where
      grown : {s t : JobState} → JobStep validate s t → n ≤ s.generation → n ≤ t.generation
      grown (claims _ _ _ _ _ _ _ _ _ _) h = omega arith
      grown (ends _ _) h = h
      grown (renews _ _ _ _ _ _) h = h
      grown (releases _) h = h
      grown (accepts _ _ _ _ _ _ _ _ _) h = h
      grown (notifies _) h = h
