-- ===== src/Flash/Http/Sessions.antt =====
-- Whole sequences of HTTP requests to one adapter.
use long_haul.Prelude.{
  ℕ, ◌+◌, ◌≤◌, ◌≡◌, refl, sym, ap, ◌∙◌, inl, inr, Bool, true, false, List, [], ◌∷◌, ◌++◌, arith,
  if◌then◌else◌, Text, Bool-cases,
}
use long_haul.Prelude.Results.{ok}
use long_haul.Work.Contracts.{WorkContract}
use long_haul.Flash.Fixture.{Injected, Fixture}
use long_haul.Flash.Fixture.History.{Call, perform, perform_all, grants, grants-le-max_attempts}
use long_haul.Flash.Http.{Decoder, Environ, Payload, FlashHttpAdapter}
use long_haul.Flash.Http.Serving.{call}
use long_haul.Flash.Http.Routes.{is_claimed, served}
use long_haul.Flash.Fixture.{create, deadline}
use long_haul.Flash.Fixture.Leases.{EndsBy}
use mathlib.Core.Path.{subst}

module _ {Json : Type 0} (given : Injected Json) (json : Decoder Json) where
  -- The requests one after the other.
  unfoldable pub serve : FlashHttpAdapter → List Environ → Fixture → Fixture
  unfolding call
  serve adapter [] s = s
  serve adapter (environ ∷ environs) s =
      serve adapter environs (call given json adapter environ s).1

  -- How many requests were answered with a claim.
  unfoldable pub claims : FlashHttpAdapter → List Environ → Fixture → ℕ
  unfolding call
  claims adapter [] s = 0
  claims adapter (environ ∷ environs) s =
      let rest = claims adapter environs (call given json adapter environ s).1 in
      (if is_claimed (call given json adapter environ s).0.payload then 1 else 0) + rest

  perform_all-append :
      (cs ds : List (Call Json)) (s : Fixture)
      → (perform_all given (cs ++ ds) s ≡ perform_all given ds (perform_all given cs s))
        × (grants given (cs ++ ds) s ≡ grants given cs s + grants given ds (perform_all given cs s))
  unfolding perform_all grants
  perform_all-append [] ds s = (refl, omega arith)
  perform_all-append (c ∷ cs) ds s =
      let rest = perform_all-append cs ds (perform given c s) in (rest.0, omega (arith, rest.1))

  -- The calls of the fixture that a list of requests makes.
  record Refined (adapter : FlashHttpAdapter) (environs : List Environ) (s : Fixture) : Type 0 where
    calls : List (Call Json)
    after : serve adapter environs s ≡ perform_all given calls s
    granted : claims adapter environs s ≤ grants given calls s
    unadmitted : adapter.admitted ≡ false → claims adapter environs s ≡ 0

  unclaimed :
      (payload : Payload Json)
      → (is_claimed payload ≡ true → ⊥)
      → (let n : ℕ = if is_claimed payload then 1 else 0 in n) ≡ 0
  unclaimed payload h = elim (Bool-cases (is_claimed payload)) [
    | inl c ↦ absurd (h c)
    | inr c ↦ ap (λ (b : Bool). let n : ℕ = if b then 1 else 0 in n) c
  ]

  refined :
      (adapter : FlashHttpAdapter) (environs : List Environ) (s : Fixture)
      → Refined adapter environs s
  unfolding serve claims perform_all grants
  refined adapter [] s = record {
    calls = [];
    after = refl;
    granted = omega arith;
    unadmitted = λ h. refl;
  }
  refined adapter (environ ∷ environs) s =
      let one = served given json adapter environ s in
      let rest = refined adapter environs (call given json adapter environ s).1 in
      let both = perform_all-append one.calls rest.calls s in
      record {
        calls = one.calls ++ rest.calls;
        after = rest.after ∙ ap (perform_all given rest.calls) one.after ∙ sym both.0;
        granted =
            omega
              (arith, one.granted, rest.granted, ap (grants given rest.calls) one.after, both.1);
        unadmitted = λ h. omega (
          arith,
          unclaimed (call given json adapter environ s).0.payload
              (λ c. absurd (ground (arith, h, one.admitted c))),
          rest.unadmitted h,
        );
      }

  within :
      (admitted : Bool) (n limit : ℕ)
      → n ≤ limit
      → (admitted ≡ false → n ≡ 0)
      → n ≤ (if admitted then limit else 0)
  within true n limit most none_granted = most
  within false n limit most none_granted = omega (arith, none_granted refl)

  -- From the creation of a fixture, whatever requests an adapter is sent: at most max_attempts of
  -- the answers are claims, none is when the adapter was not admitted, and the current lease, if
  -- there is one, never ends after the deadline.
  pub claims-le-max_attempts :
      (adapter : FlashHttpAdapter) (environs : List Environ) (job_id : Text)
      (contract : WorkContract) (lease_seconds : ℕ) (s : Fixture)
      → create given job_id contract lease_seconds ≡ ok s
      → (claims adapter environs s ≤ (if adapter.admitted then contract.budget.max_attempts else 0))
        × EndsBy (deadline (serve adapter environs s)) (serve adapter environs s).current
  claims-le-max_attempts adapter environs job_id contract lease_seconds s made =
      let r = refined adapter environs s in
      let bound = grants-le-max_attempts given job_id contract lease_seconds s r.calls made in
      (
        within adapter.admitted (claims adapter environs s) contract.budget.max_attempts
            (omega (arith, r.granted, bound.0)) r.unadmitted,
        subst (λ t. EndsBy (deadline t) t.current) (sym r.after) bound.1,
      )
