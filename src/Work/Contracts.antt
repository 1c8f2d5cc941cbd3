-- ===== src/Work/Contracts.antt =====
-- Work contracts and their evaluation (src/long_haul/work/contracts.py).
-- Times are whole clock ticks. Fields that a schema fixes to one literal are left out.
use long_haul.Prelude.{
  ℕ, Bool, true, false, not, Option, none, some, List, [], ◌∷◌, map, Text, is_distinct, leb,
}
use long_haul.Prelude.Results.{Result, ok, err, value_error, ◌>>=◌, ◌>>◌, raise_if}
use long_haul.Work.Scope.{validate_scope, permits_path}

pub data PredicateKind : Type 0 where
  test build lint static_check artifact : PredicateKind

pub data FailureKind : Type 0 where
  scope_violation timeout malformed_action no_progress resource_exhaustion : FailureKind

pub data EvidenceState : Type 0 where
  pass fail unknown : EvidenceState

pub data WorkDisposition : Type 0 where
  accepted rejected incomplete : WorkDisposition

pub record WorkBudget : Type 0 where
  pub wall_seconds : ℕ
  pub max_attempts : ℕ
  pub max_tokens_per_attempt : Option ℕ
  pub max_no_progress_steps : Option ℕ

pub record FlashExecutionExtension : Type 0 where
  pub application_memory_mib : Option ℕ

pub data CapabilityState : Type 0 where
  available unavailable unknown_capability : CapabilityState

-- The last test of `admits`, and its guard against absent inputs.
abbrev pub memory_suffices : Option ℕ → Option ℕ → Bool
memory_suffices (some needed) (some observed) = leb needed observed
memory_suffices _ _ = false

unfoldable pub admits : FlashExecutionExtension → CapabilityState → Option ℕ → Bool → Bool
admits x available observed true = memory_suffices x.application_memory_mib observed
admits x _ observed _ = false

pub record AcceptancePredicate : Type 0 where
  pub predicate_id : Text
  pub kind : PredicateKind
  pub description : Text
  pub command : List Text
  pub artifact_path : Option Text

pub record FailurePredicate : Type 0 where
  pub kind : FailureKind
  pub limit : Option ℕ

pub record WorkContract : Type 0 where
  pub contract_id : Text
  pub mission_id : Text
  pub objective : Text
  pub context : Text
  pub execution_plan_id : Option Text
  pub allowed_paths : List Text
  pub forbidden_paths : List Text
  pub capabilities : List Text
  pub authority_scopes : List Text
  pub budget : WorkBudget
  pub success_predicates : List AcceptancePredicate
  pub failure_predicates : List FailurePredicate
  pub flash_execution : Option FlashExecutionExtension

-- AcceptancePredicate.executable_or_artifact
abbrev require_command : AcceptancePredicate → Result AcceptancePredicate
require_command p = elim p.command [ [] ↦ err value_error | _ ∷ _ ↦ ok p ]

abbrev require_path : AcceptancePredicate → Option Text → Result AcceptancePredicate
require_path p none = err value_error
require_path p (some []) = err value_error
require_path p (some (c ∷ cs)) = do
  path ← validate_scope (c ∷ cs)
  ok (record p { artifact_path = some path })

abbrev executable_of_kind : AcceptancePredicate → PredicateKind → Result AcceptancePredicate
executable_of_kind p artifact = require_path p p.artifact_path
executable_of_kind p _ = require_command p

unfoldable pub executable_or_artifact : AcceptancePredicate → Result AcceptancePredicate
unfolding validate_scope
executable_or_artifact p = executable_of_kind p p.kind

-- [_validate_scope(path) for path in paths]
unfoldable pub validate_scopes : List Text → Result (List Text)
unfolding validate_scope
validate_scopes [] = ok []
validate_scopes (path ∷ paths) = do
  scope ← validate_scope path
  rest ← validate_scopes paths
  ok (scope ∷ rest)

abbrev pub predicate_ids : List AcceptancePredicate → List Text
predicate_ids ps = map (λ p. p.predicate_id) ps

-- WorkContract.validate_contract
unfoldable pub validate_contract : WorkContract → Result WorkContract
unfolding validate_scopes is_distinct
validate_contract c = do
  allowed ← validate_scopes c.allowed_paths
  forbidden ← validate_scopes c.forbidden_paths
  raise_if (not (is_distinct allowed)) value_error
  raise_if (not (is_distinct forbidden)) value_error
  raise_if (not (is_distinct (predicate_ids c.success_predicates))) value_error
  ok (record c { allowed_paths = allowed; forbidden_paths = forbidden })

unfoldable pub permits : WorkContract → Text → Result Bool
unfolding permits_path
permits c path = permits_path c.allowed_paths c.forbidden_paths path
