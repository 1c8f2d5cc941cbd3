-- ===== src/Decisions.antt =====
-- The decision protocol (src/long_haul/decisions/engine.py).
-- A set of participants is a list without duplicates.
pub mod Participation
pub mod Blocks
mod Examples
use long_haul.Prelude.{
  ℕ, zero, suc, ◌+◌, ◌-◌, ◌*◌, ◌/◌, ◌%◌, ◌≤◌, ◌<◌, min, max, ◌≡◌, refl, sym, ap, ◌∙◌, ◌≢◌, ◌↔◌, ◌⊎◌,
  inl, inr, Bool, true, false, not, ◌&&◌, ◌||◌, Option, none, some, List, [], ◌∷◌, ◌++◌, map, arith,
  ltb, leb, nat_eq, if◌then◌else◌, nat_eq_iff, Bool-cases, Option-cases, is_some, is_none, length,
  take, drop, last_items, drop-append, drop-drop, drop-nil, last_items-window, All, select, any,
  all, length-append, length-drop, length-take-le, length-last_items-le, length-select-le,
  any-append, all-append, Text, codes, ◌==◌, ==_refl, eq_of_==, eq_iff, contains, is_distinct,
  contains-append,
}
use long_haul.Prelude.Results.{
  Fault, Result, ok, err, value_error, key_error, type_error, runtime_error, lease_error,
  verification_error, lifecycle_error, service_error, ◌>>=◌, ◌>>◌, raise_if, >>=-eq-ok,
  raise_if-eq-ok, Result-cases, is_ok, passed,
}
use long_haul.Prelude.Dict.{
  Dict, get, put, pop, values, get-put, get-pop, keys, contains-keys-put, get-absent,
}

pub data Position : Type 0 where
  support consent stand_aside concern object block abstain unknown : Position

pub data Category : Type 0 where
  factual safety resource value jurisdiction preference other : Category

pub record DecisionPosition : Type 0 where
  pub participant : Text
  pub position : Position
  pub category : Option Category
  pub rationale : Option Text

pub data Resolution : Type 0 where
  consensus consent scoped_authority experiment escalation recorded_disagreement : Resolution

pub record DecisionRecord : Type 0 where
  pub id : Text
  pub proposal : Text
  pub participants : List Text
  pub consequential : Bool
  pub exception : Option Text
  pub initial_positions : List DecisionPosition
  pub final_positions : List DecisionPosition
  pub resolution : Option Resolution
  pub action : Option Text
  pub authority_holder : Option Text
  pub authority_scope : Option Text
  pub authority_scopes : Dict (List Text)

abbrev pub is_block : Position → Bool
is_block block = true
is_block _ = false

-- the truth value of an optional text
abbrev pub truthy : Option Text → Bool
truthy none = false
truthy (some []) = false
truthy (some (c ∷ cs)) = true

abbrev pub is_preference : Option Category → Bool
is_preference (some preference) = true
is_preference _ = false

abbrev pub is_unfounded : DecisionPosition → Bool
is_unfounded p = is_block p.position && (not (truthy p.rationale) || is_preference p.category)

-- DecisionRecord.validate_blocks
unfoldable pub validate_blocks : DecisionRecord → Result DecisionRecord
validate_blocks r = do
  raise_if (any is_unfounded (r.initial_positions ++ r.final_positions)) value_error
  ok r

abbrev pub participants_of : List DecisionPosition → List Text
participants_of ps = map (λ p. p.participant) ps

-- DecisionEngine.capture_initial
unfoldable pub capture_initial : DecisionRecord → DecisionPosition → Result DecisionRecord
unfolding contains
capture_initial r p = do
  raise_if (not (contains p.participant r.participants)) value_error
  raise_if (contains p.participant (participants_of r.initial_positions)) value_error
  ok (record r { initial_positions = r.initial_positions ++ p ∷ [] })

abbrev pub passes_block : Resolution → Bool
passes_block escalation = true
passes_block experiment = true
passes_block _ = false

abbrev pub is_scoped : Resolution → Bool
is_scoped scoped_authority = true
is_scoped _ = false

abbrev scopes_of : Option (List Text) → List Text
scopes_of none = []
scopes_of (some scopes) = scopes

-- The holder participates, and holds the scope that the record declares.
unfoldable pub has_authority : DecisionRecord → Option Text → Option Text → Bool
unfolding contains get
has_authority r (some holder) (some scope) =
    truthy (some holder)
    && contains holder r.participants
    && truthy (some scope)
    && contains scope (scopes_of (get r.authority_scopes holder))
has_authority r _ _ = false

abbrev pub lacks_positions : DecisionRecord → Bool
lacks_positions r =
    r.consequential
    && not (nat_eq (length r.initial_positions) (length r.participants))
    && not (truthy r.exception)

abbrev pub has_block : DecisionRecord → Bool
has_block r = any (λ p. is_block p.position) r.initial_positions

-- DecisionEngine.resolve
unfoldable pub resolve : DecisionRecord → Resolution → Text → Option Text → Result DecisionRecord
unfolding has_authority
resolve r resolution action authority_holder = do
  raise_if (lacks_positions r) value_error
  raise_if (has_block r && not (passes_block resolution)) value_error
  raise_if (is_scoped resolution && not (has_authority r authority_holder r.authority_scope))
      value_error
  ok (record r {
    resolution = some resolution;
    action = some action;
    authority_holder = authority_holder;
  })
