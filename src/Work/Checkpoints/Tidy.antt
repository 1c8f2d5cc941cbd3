-- ===== src/Work/Checkpoints/Tidy.antt =====
-- A materialized checkpoint is free of duplicates and contradictions, and depends only on the
-- contract's own events, in their order.
use long_haul.Prelude.{
  ◌≡◌, refl, sym, ap, ◌∙◌, inl, inr, Bool, true, false, not, ◌&&◌, ◌||◌, Option, some, List, [],
  ◌∷◌, ◌++◌, map, arith, if◌then◌else◌, Bool-cases, select, Text, codes, ◌==◌, eq_iff, contains,
  is_distinct, contains-append, is_distinct-append,
}
use long_haul.Prelude.Results.{ok, value_error, ◌>>=◌, >>=-eq-ok, passed}
use mathlib.Core.Path.{fun_ext}
use long_haul.Fleet.Events.{
  Event, EventType, work_fact, work_constraint, work_subgoal, work_failure, work_failure_resolved,
  work_artifact_verified,
}
use long_haul.Work.Checkpoints.{
  CheckpointFact, WorkCheckpoint, Draft, is_empty, append_unique, stripped, apply_fact,
  apply_constraint, subgoal_branch, apply_subgoal, apply_failure, apply_failure_resolution,
  apply_artifact, apply_kind, visit, visit_all, empty_draft, materialize_checkpoint, is_for,
  state_is, with_checkpoint,
}

abbrev pub fact_texts : List CheckpointFact → List Text
fact_texts facts = map (λ f. f.text) facts

-- Facts, constraints and subgoals are listed once, and no subgoal is both completed and remaining.
pub record IsTidy (c : WorkCheckpoint) : Type 0 where
  pub facts_once : is_distinct (fact_texts c.facts) ≡ true
  pub constraints_once : is_distinct c.active_constraints ≡ true
  pub completed_once : is_distinct c.completed_subgoals ≡ true
  pub remaining_once : is_distinct c.remaining_subgoals ≡ true
  pub disjoint :
      (a : Text) → (contains a c.completed_subgoals && contains a c.remaining_subgoals) ≡ false

abbrev Keyed : Draft → Type 0
Keyed d = (a : Text) → contains a d.fact_keys ≡ contains a (fact_texts d.checkpoint.facts)

is_distinct-append_unique :
    (xs : List Text) (a : Text) → is_distinct xs ≡ true → is_distinct (append_unique xs a) ≡ true
unfolding append_unique
is_distinct-append_unique xs a h = ground (arith, is_distinct-append xs a)

contains-append_unique :
    (xs : List Text) (a b : Text)
    → contains b (append_unique xs a) ≡ (contains b xs || (not (is_empty a) && (a == b)))
unfolding append_unique contains
contains-append_unique xs a b = ground (arith, contains-append b xs (a ∷ []), eq_iff a b)

contains-select :
    (p : Text → Bool) (a : Text) (xs : List Text)
    → contains a (select p xs) ≡ (contains a xs && p a)
unfolding contains
contains-select p a [] = refl
contains-select p a (x ∷ xs) = ground (arith, eq_iff x a, contains-select p a xs)

is_distinct-select :
    (p : Text → Bool) (xs : List Text) → is_distinct xs ≡ true → is_distinct (select p xs) ≡ true
unfolding is_distinct
is_distinct-select p [] h = refl
is_distinct-select p (x ∷ xs) h = ground (arith, is_distinct-select p xs, contains-select p x xs)

fact_texts-append :
    (fs : List CheckpointFact) (f : CheckpointFact)
    → fact_texts (fs ++ f ∷ []) ≡ fact_texts fs ++ f.text ∷ []
fact_texts-append [] f = refl
fact_texts-append (g ∷ fs) f = ap (λ xs. g.text ∷ xs) (fact_texts-append fs f)

abbrev Sound : Draft → Type 0
Sound d = IsTidy d.checkpoint × Keyed d

abbrev with_fact : Draft → CheckpointFact → Draft
with_fact d f = record {
  checkpoint = record d.checkpoint { facts = d.checkpoint.facts ++ f ∷ [] };
  fact_keys = f.text ∷ d.fact_keys;
}

with_fact-Sound :
    (d : Draft) (f : CheckpointFact)
    → contains f.text d.fact_keys ≡ false
    → Sound d
    → Sound (with_fact d f)
unfolding contains
with_fact-Sound d f new (tidy, keyed) =
    let texts = fact_texts d.checkpoint.facts in
    let grown = fact_texts-append d.checkpoint.facts f in
    (
      record {
        facts_once =
            rw grown
              (ground (arith, is_distinct-append texts f.text, tidy.facts_once, keyed f.text));
        constraints_once = tidy.constraints_once;
        completed_once = tidy.completed_once;
        remaining_once = tidy.remaining_once;
        disjoint = tidy.disjoint;
      },
      λ a. rw grown (ground (arith, contains-append a texts (f.text ∷ []), keyed a)),
    )

fact-Sound : (d d' : Draft) (e : Event) → apply_fact d e ≡ ok d' → Sound d → Sound d'
unfolding apply_fact
fact-Sound d d' e h sound =
    let text = stripped e.payload.text in
    let fact : CheckpointFact = record { text = text; source_event_id = e.id } in
    elim (Bool-cases (not (is_empty text) && not (contains text d.fact_keys))) [
      | inr old ↦ let same : d' ≡ d = ground arith in rw same sound
      | inl new ↦ elim (Bool-cases (is_empty e.id)) [
        | inl nameless ↦ absurd (ground arith)
        | inr named ↦
            let same : d' ≡ with_fact d fact = ground arith in
            rw same (with_fact-Sound d fact (ground arith) sound)
      ]
    ]

subgoal-IsTidy :
    (c : WorkCheckpoint) (s : Option Text) (a : Text)
    → IsTidy c
    → is_empty a ≡ false
    → IsTidy (subgoal_branch c s a)
unfolding subgoal_branch
subgoal-IsTidy c s a h full = elim (Bool-cases (state_is s (codes "completed"))) [
  | inl done ↦ rw done (record {
    facts_once = h.facts_once;
    constraints_once = h.constraints_once;
    completed_once = is_distinct-append_unique c.completed_subgoals a h.completed_once;
    remaining_once =
        is_distinct-select (λ item. not (item == a)) c.remaining_subgoals h.remaining_once;
    disjoint = λ b. ground (
      arith,
      contains-append_unique c.completed_subgoals a b,
      h.disjoint b,
      eq_iff a b,
      eq_iff b a,
      contains-select (λ item. not (item == a)) b c.remaining_subgoals,
    );
  })
  | inr open' ↦
      rw open'
        (elim (Bool-cases
          (state_is s (codes "remaining") && not (contains a c.completed_subgoals))) [
            | inl added ↦ rw added (record {
              facts_once = h.facts_once;
              constraints_once = h.constraints_once;
              completed_once = h.completed_once;
              remaining_once = is_distinct-append_unique c.remaining_subgoals a h.remaining_once;
              disjoint = λ b. ground (
                arith,
                contains-append_unique c.remaining_subgoals a b,
                h.disjoint b,
                eq_iff a b,
              );
            })
            | inr kept ↦ rw kept h
          ])
]

if-IsTidy :
    (b : Bool) (c c' : WorkCheckpoint)
    → IsTidy c
    → (b ≡ false → IsTidy c')
    → IsTidy (if b then c else c')
if-IsTidy true c c' h k = h
if-IsTidy false c c' h k = k refl

apply_subgoal-IsTidy : (c : WorkCheckpoint) (e : Event) → IsTidy c → IsTidy (apply_subgoal c e)
unfolding apply_subgoal
apply_subgoal-IsTidy c e h =
    let text = stripped e.payload.text in
    if-IsTidy (is_empty text) c _ h (λ full. subgoal-IsTidy c e.payload.state text h full)

apply_constraint-IsTidy :
    (c : WorkCheckpoint) (e : Event) → IsTidy c → IsTidy (apply_constraint c e)
unfolding apply_constraint
apply_constraint-IsTidy c e h = record {
  facts_once = h.facts_once;
  constraints_once =
      is_distinct-append_unique c.active_constraints (stripped e.payload.text) h.constraints_once;
  completed_once = h.completed_once;
  remaining_once = h.remaining_once;
  disjoint = h.disjoint;
}

facts-apply_subgoal : (c : WorkCheckpoint) (e : Event) → (apply_subgoal c e).facts ≡ c.facts
unfolding apply_subgoal subgoal_branch
facts-apply_subgoal c e = ground arith

abbrev kept :
    (c : WorkCheckpoint)
    → IsTidy c
    → (c' : WorkCheckpoint) → c'.facts ≡ c.facts
    → c'.active_constraints ≡ c.active_constraints
    → c'.completed_subgoals ≡ c.completed_subgoals
    → c'.remaining_subgoals ≡ c.remaining_subgoals
    → IsTidy c'
kept c h c' f a d r = record {
  facts_once = rw f h.facts_once;
  constraints_once = rw a h.constraints_once;
  completed_once = rw d h.completed_once;
  remaining_once = rw r h.remaining_once;
  disjoint = λ x. rw d (rw r (h.disjoint x));
}

artifact-Sound :
    (d d' : Draft) (e : Event) → apply_kind work_artifact_verified d e ≡ ok d' → Sound d → Sound d'
unfolding apply_kind apply_artifact
artifact-Sound d d' e h (tidy, keyed) =
    let c' = d'.checkpoint in
    (
      kept d.checkpoint tidy c' (ground arith) (ground arith) (ground arith) (ground arith),
      λ a. ground (arith, keyed a),
    )

kind-Sound :
    (k : EventType) (d d' : Draft) (e : Event) → apply_kind k d e ≡ ok d' → Sound d → Sound d'
unfolding apply_kind
kind-Sound work_fact d d' e h s = fact-Sound d d' e h s
kind-Sound work_constraint d d' e h (tidy, keyed) =
    let same : d' ≡ with_checkpoint d (apply_constraint d.checkpoint e) = ground arith in
    rw same (apply_constraint-IsTidy d.checkpoint e tidy, unfold apply_constraint in keyed)
kind-Sound work_subgoal d d' e h (tidy, keyed) =
    let same : d' ≡ with_checkpoint d (apply_subgoal d.checkpoint e) = ground arith in
    rw same (
      apply_subgoal-IsTidy d.checkpoint e tidy,
      λ a. rw (facts-apply_subgoal d.checkpoint e) (keyed a),
    )
kind-Sound work_failure d d' e h (tidy, keyed) =
    let same : d' ≡ with_checkpoint d (apply_failure d.checkpoint e) = ground arith in
    rw same (unfold apply_failure in (kept d.checkpoint tidy _ refl refl refl refl, keyed))
kind-Sound work_failure_resolved d d' e h (tidy, keyed) =
    let same : d' ≡ with_checkpoint d (apply_failure_resolution d.checkpoint e) = ground arith in
    rw same
      (unfold apply_failure_resolution in (kept d.checkpoint tidy _ refl refl refl refl, keyed))
kind-Sound work_artifact_verified d d' e h s = artifact-Sound d d' e h s
kind-Sound _ d d' e h s = let same : d' ≡ d = ground arith in rw same s

visit-Sound :
    (contract_id : Text) (d d' : Draft) (e : Event)
    → visit contract_id d e ≡ ok d'
    → Sound d
    → Sound d'
unfolding visit
visit-Sound contract_id d d' e h (tidy, keyed) = elim (Bool-cases (is_for contract_id e)) [
  | inr foreign ↦ let same : d' ≡ d = ground arith in rw same (tidy, keyed)
  | inl own ↦
      let marked = with_checkpoint d (record d.checkpoint { through_event_id = some e.id }) in
      kind-Sound e.event_type marked d' e (rw own at h)
        (kept d.checkpoint tidy marked.checkpoint refl refl refl refl, keyed)
]

visit_all-Sound :
    (contract_id : Text) (d d' : Draft) (es : List Event)
    → visit_all contract_id d es ≡ ok d'
    → Sound d
    → Sound d'
unfolding visit_all
visit_all-Sound contract_id d d' [] h s = let same : d' ≡ d = ground arith in rw same s
visit_all-Sound contract_id d d' (e ∷ es) h s =
    let (next, first, rest) = >>=-eq-ok (visit contract_id d e) _ h in
    visit_all-Sound contract_id next d' es rest (visit-Sound contract_id d next e first s)

-- Whatever the events are, a checkpoint that is materialized from them lists each fact, constraint
-- and subgoal once, and no subgoal is both completed and remaining.
pub materialize_checkpoint-IsTidy :
    (contract_id : Text) (es : List Event) (c : WorkCheckpoint)
    → materialize_checkpoint contract_id es ≡ ok c
    → IsTidy c
unfolding materialize_checkpoint is_distinct contains
materialize_checkpoint-IsTidy contract_id es c h =
    let (named, h1) = passed (is_empty contract_id) value_error _ h in
    let (d, ran, h2) = >>=-eq-ok (visit_all contract_id (empty_draft contract_id) es) _ h1 in
    let start : Sound (empty_draft contract_id) = (
      record {
        facts_once = refl;
        constraints_once = refl;
        completed_once = refl;
        remaining_once = refl;
        disjoint = λ a. refl;
      },
      λ a. refl,
    ) in
    let same : c ≡ d.checkpoint = ground arith in
    rw same ((visit_all-Sound contract_id (empty_draft contract_id) d es ran start).0)

visit-foreign :
    (contract_id : Text) (d : Draft) (e : Event)
    → is_for contract_id e ≡ false
    → visit contract_id d e ≡ ok d
unfolding visit
visit-foreign contract_id d e foreign = ground arith

visit_all-own :
    (contract_id : Text) (d : Draft) (es : List Event)
    → visit_all contract_id d es ≡ visit_all contract_id d (select (is_for contract_id) es)
unfolding visit_all
visit_all-own contract_id d [] = refl
visit_all-own contract_id d (e ∷ es) =
    let rest = select (is_for contract_id) es in
    let from = λ (b : Bool). visit_all contract_id d (if b then e ∷ rest else rest) in
    elim (Bool-cases (is_for contract_id e)) [
      | inl own ↦
          ap (λ k. visit contract_id d e >>= k) (fun_ext (λ d'. visit_all-own contract_id d' es))
          ∙ ap from (sym own)
      | inr foreign ↦
          ap (λ r. r >>= λ d'. visit_all contract_id d' es) (visit-foreign contract_id d e foreign)
          ∙ visit_all-own contract_id d es
          ∙ ap from (sym foreign)
    ]

-- A checkpoint is that of the contract's own events: events of other contracts, wherever they stand
-- in the log, change neither its content nor whether it is made.
pub materialize_checkpoint-own :
    (contract_id : Text) (es : List Event)
    → materialize_checkpoint contract_id es
      ≡ materialize_checkpoint contract_id (select (is_for contract_id) es)
unfolding materialize_checkpoint
materialize_checkpoint-own contract_id es =
    rw (visit_all-own contract_id (empty_draft contract_id) es)
