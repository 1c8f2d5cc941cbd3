-- ===== src/Decisions/Examples.antt =====
-- Tests of a decision of two participants, and the theorems at such inputs.
use long_haul.Prelude.{
  ◌≡◌, refl, ◌⊎◌, true, false, not, ◌&&◌, none, some, List, [], ◌∷◌, Text, codes, ◌==◌, contains,
}
use long_haul.Prelude.Results.{ok, err, value_error, is_ok}
use long_haul.Decisions.{
  Position, support, block, DecisionPosition, DecisionRecord, consensus, escalation, experiment,
  scoped_authority, participants_of, validate_blocks, capture_initial, passes_block, resolve,
}
use long_haul.Decisions.Participation.{capture_all, resolve_complete}
use long_haul.Decisions.Blocks.{resolve-blocked, capture_initial-unfounded}

abbrev says : Text → Position → DecisionPosition
says name position = record {
  participant = name;
  position = position;
  category = none;
  rationale = none;
}

abbrev opened : DecisionRecord
opened = record {
  id = codes "d";
  proposal = codes "p";
  participants = codes "x" ∷ codes "y" ∷ [];
  consequential = true;
  exception = none;
  initial_positions = [];
  final_positions = [];
  resolution = none;
  action = none;
  authority_holder = none;
  authority_scope = some (codes "s");
  authority_scopes = (codes "x", codes "s" ∷ []) ∷ [];
}

abbrev positions : List DecisionPosition
positions = says (codes "x") support ∷ says (codes "y") block ∷ []

abbrev captured : DecisionRecord
captured = record opened { initial_positions = positions }

captured_test : capture_all opened positions ≡ ok captured
unfolding capture_all contains ◌==◌
captured_test = refl

abbrev resolved : DecisionRecord
resolved = record captured { resolution = some escalation; action = some (codes "ask") }

resolved_test : resolve captured escalation (codes "ask") none ≡ ok resolved
unfolding resolve
resolved_test = refl

-- The holder has the declared scope; with one position missing the decision stays open.
authority_test :
    (resolve
        (record captured {
          initial_positions = says (codes "x") support ∷ [];
          consequential = false;
        })
        scoped_authority
        (codes "go")
        (some (codes "x"))
      ≡ ok (record captured {
        initial_positions = says (codes "x") support ∷ [];
        consequential = false;
        resolution = some scoped_authority;
        action = some (codes "go");
        authority_holder = some (codes "x");
      }))
    × (resolve (record captured { initial_positions = [] }) consensus (codes "go") none
        ≡ err value_error)
unfolding resolve contains ◌==◌
authority_test = (refl, refl)

resolve_complete_example :
    contains (codes "y") (participants_of positions) ≡ contains (codes "y") opened.participants
resolve_complete_example =
    resolve_complete opened captured resolved positions escalation (codes "ask") none (codes "y")
      refl refl refl captured_test resolved_test

resolve-blocked_example : (escalation ≡ escalation) ⊎ (escalation ≡ experiment)
resolve-blocked_example =
    resolve-blocked opened captured resolved positions escalation (codes "ask") none refl refl
      captured_test resolved_test

capture_initial-unfounded_example :
    (r' : DecisionRecord) × (capture_initial opened (says (codes "x") block) ≡ ok r')
    × (validate_blocks r' ≡ err value_error)
    × ((is_ok (resolve r' consensus (codes "go") none) && not (passes_block consensus)) ≡ false)
capture_initial-unfounded_example =
    capture_initial-unfounded opened (says (codes "x") block) consensus (codes "go") none refl
      (unfold contains ◌==◌ in refl) (unfold contains ◌==◌ in refl)
