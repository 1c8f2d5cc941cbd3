-- ===== src/Flash/Storage/Examples.antt =====
-- A job that is enqueued, claimed and completed, and the theorems at such inputs.
use long_haul.Prelude.{◌≤◌, ◌≡◌, refl, Option, none, some, List, [], ◌∷◌, arith, Text, codes, ◌==◌}
use long_haul.Prelude.Results.{ok}
use long_haul.Prelude.Dict.{get, put, pop}
use native.Mathlib.Decide.{ℕ_discrete}
use long_haul.Prelude.Strings.{starts_with}
use long_haul.Flash.Exec.{◌>>=◌}
use long_haul.Flash.Storage.{FlashStorageOptions, JobState, Adapter, call}
use long_haul.Flash.Storage.Claiming.{enqueue, claim}
use long_haul.Flash.Storage.Completing.{complete}
use long_haul.Flash.Storage.Protocol.{Evolves, job_at}
use long_haul.Flash.Storage.Protocol.Keyed.{IsKeyed}
use long_haul.Flash.Storage.Protocol.Sound.{AcceptedAs, OfJob, UnlessAbsent, IsSound}
use long_haul.Flash.Storage.Protocol.Accepted.{IsAccepted}
use long_haul.Flash.Storage.History.{
  Request, enqueuing, claiming, abandoning, completing, serve, serve-Evolves, serve-accepted,
  serve-IsSound, serve-generation, complete-IsAccepted,
}
use long_haul.Flash.Storage.Container.{
  Container, Content-discrete, contract, token, download, upload_new, upload_matching, services,
  view, documented,
}

abbrev options : FlashStorageOptions
options = record {
  lease_seconds = 10;
  recovery_scan_limit = 4;
  accepted_trigger_drain_limit = 2;
  max_local_claims = 2;
}

abbrev start : Adapter Container (Unit {0})
start = record { world = record { blobs = []; now = 5; messages = [] }; claims = [] }

abbrev requests : List (Request Text)
requests = enqueuing (codes "j") contract ∷ claiming ∷ completing token (codes "1") ∷ []

abbrev name : Text
name = codes "flash-jobs/v1/j.json"

abbrev IsDone : Option JobState → Type 0
IsDone o = OfJob (λ j. AcceptedAs j (codes "1") (some 1) (some token)) o

abbrev done : Adapter Container (Unit {0})
done = serve services options requests start

abbrev later : List (Request Text)
later = completing token (codes "2") ∷ abandoning token ∷ claiming ∷ []

-- The run, and the caller's second completion after the claim is gone from the process.
done_lem :
    IsDone (job_at services view done.world name)
    × (done.claims ≡ [])
    × OfJob (λ j. 1 ≤ j.generation) (job_at services view done.world name)
    × ((complete services options token (codes "1") done).0 ≡ ok (codes "1"))
unfolding serve enqueue claim complete Content-discrete ℕ_discrete download upload_new
    upload_matching call get put pop ◌==◌ starts_with ◌>>=◌
done_lem = ((refl, refl, refl), refl, omega arith, refl)

done-IsKeyed : IsKeyed done.claims
done-IsKeyed = rw done_lem.1 refl

serve-Evolves_example :
    Evolves services.validate_contract none
      (job_at services view (serve services options requests start).world name)
unfolding get
serve-Evolves_example = serve-Evolves services view documented options requests start name refl

serve-accepted_example :
    IsDone (job_at services view (serve services options later done).world name)
serve-accepted_example =
    serve-accepted services view documented options later done name (codes "1") (some 1)
      (some token) done-IsKeyed done_lem.0

serve-IsSound_example :
    UnlessAbsent
      (IsSound services.validate_contract)
      (job_at services view (serve services options requests start).world name)
unfolding get
serve-IsSound_example = serve-IsSound services view documented options requests start name refl tt

serve-generation_example :
    OfJob
      (λ j. 1 ≤ j.generation)
      (job_at services view (serve services options later done).world name)
serve-generation_example =
    serve-generation services view documented options later done name 1 done-IsKeyed done_lem.2

complete-IsAccepted_example :
    (result_json : Text) × (some (codes "1") ≡ some result_json)
    × (codes "1" ≡ result_json)
    × IsAccepted services view documented options token result_json
        (complete services options token (codes "1") done).1
complete-IsAccepted_example =
    complete-IsAccepted services view documented options done token (codes "1") (codes "1")
      done-IsKeyed done_lem.3
