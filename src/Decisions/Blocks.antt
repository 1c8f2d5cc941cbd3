-- ===== src/Decisions/Blocks.antt =====
-- What a block does to a decision.
use long_haul.Prelude.{
  ◌≡◌, refl, ◌∙◌, ◌⊎◌, inl, inr, true, false, not, ◌&&◌, Option, List, [], ◌∷◌, ◌++◌, arith, any,
  any-append, Text, contains, is_distinct,
}
use long_haul.Prelude.Results.{ok, err, value_error, is_ok, passed}
use long_haul.Decisions.{
  DecisionPosition, DecisionRecord, Resolution, escalation, experiment, participants_of, is_block,
  is_unfounded, validate_blocks, capture_initial, lacks_positions, has_block, passes_block, resolve,
}
use long_haul.Decisions.Participation.{IsIndependent, capture_all, capture_all-IsIndependent}

passing :
    (resolution : Resolution)
    → passes_block resolution ≡ true
    → (resolution ≡ escalation) ⊎ (resolution ≡ experiment)
passing escalation h = inl refl
passing experiment h = inr refl
passing _ h = absurd (ground arith)

-- From a record without positions: if one of the positions that are captured is a block, the
-- decision can be resolved by escalation or by experiment only.
pub resolve-blocked :
    (r captured resolved : DecisionRecord) (ps : List DecisionPosition) (resolution : Resolution)
    (action : Text) (holder : Option Text)
    → r.initial_positions ≡ []
    → any (λ p. is_block p.position) ps ≡ true
    → capture_all r ps ≡ ok captured
    → resolve captured resolution action holder ≡ ok resolved
    → (resolution ≡ escalation) ⊎ (resolution ≡ experiment)
unfolding resolve
resolve-blocked r captured resolved ps resolution action holder none_yet blocked ran h =
    let start : IsIndependent r = rw none_yet (unfold is_distinct in (refl, refl)) in
    let (independent, same) = capture_all-IsIndependent r captured ps ran start in
    let positions : captured.initial_positions ≡ ps = rw same (rw none_yet refl) in
    let (enough, h1) = passed (lacks_positions captured) value_error _ h in
    let (free, h2) =
      passed (has_block captured && not (passes_block resolution)) value_error _ h1 in
    let here : has_block captured ≡ true = rw positions blocked in passing resolution (ground arith)

any-last :
    (ps : List DecisionPosition) (p : DecisionPosition)
    → is_unfounded p ≡ true
    → any is_unfounded (ps ++ p ∷ []) ≡ true
any-last ps p h = any-append is_unfounded ps (p ∷ []) ∙ ground arith

-- A block that construction would refuse, without a rationale or as a preference, is captured from
-- every participant who has not spoken; the record is then one that validate_blocks refuses, and
-- nothing but escalation or experiment resolves it.
pub capture_initial-unfounded :
    (r : DecisionRecord) (p : DecisionPosition) (resolution : Resolution) (action : Text)
    (holder : Option Text)
    → is_unfounded p ≡ true
    → contains p.participant r.participants ≡ true
    → contains p.participant (participants_of r.initial_positions) ≡ false
    → (r' : DecisionRecord) × (capture_initial r p ≡ ok r')
      × (validate_blocks r' ≡ err value_error)
      × ((is_ok (resolve r' resolution action holder) && not (passes_block resolution)) ≡ false)
unfolding capture_initial validate_blocks resolve
capture_initial-unfounded r p resolution action holder unfounded member fresh =
    let r' : DecisionRecord = record r { initial_positions = r.initial_positions ++ p ∷ [] } in
    let bad : any is_unfounded (r'.initial_positions ++ r'.final_positions) ≡ true =
      any-append is_unfounded r'.initial_positions r'.final_positions
      ∙ ground (arith, any-last r.initial_positions p unfounded) in
    let blocked : has_block r' ≡ true =
      any-append (λ q. is_block q.position) r.initial_positions (p ∷ []) ∙ ground arith in
    (r', rw member (rw fresh refl), rw bad refl, ground arith)
