-- ===== src/Work/Evaluation/Lookup.antt =====
-- The index of the evidence by predicate id, and the sets of predicate ids, against plain searches
-- of the lists.
use long_haul.Prelude.{
  ◌≡◌, refl, ◌↔◌, inl, inr, Bool, true, false, not, ◌&&◌, ◌||◌, Option, none, some, List, [], ◌∷◌,
  arith, if◌then◌else◌, Bool-cases, select, any, Text, ◌==◌, eq_of_==, eq_iff, contains,
  is_distinct,
}
use long_haul.Prelude.Dict.{Dict, get, put, get-put}
use long_haul.Prelude.Strings.{to_set}
use long_haul.Work.Contracts.{EvidenceState, pass, fail, unknown}
use long_haul.Work.Evaluation.{PredicateEvidence, index, evidence_ids, by_id, is_failed, is_missing}

abbrev pub same_state : EvidenceState → EvidenceState → Bool
same_state pass pass = true
same_state fail fail = true
same_state unknown unknown = true
same_state _ _ = false

-- Some item of the evidence records the state for the predicate.
abbrev pub recorded : EvidenceState → Text → List PredicateEvidence → Bool
recorded state pid evidence =
    any (λ e. (e.predicate_id == pid) && same_state e.state state) evidence

-- The entry of pid in the evidence, the last one first, and otherwise o.
abbrev find : Option PredicateEvidence → List PredicateEvidence → Text → Option PredicateEvidence
find o [] pid = o
find o (e ∷ evidence) pid = find (if e.predicate_id == pid then some e else o) evidence pid

get-index :
    (d : Dict PredicateEvidence) (evidence : List PredicateEvidence) (pid : Text)
    → get (index d evidence) pid ≡ find (get d pid) evidence pid
unfolding index
get-index d [] pid = refl
get-index d (e ∷ evidence) pid =
    rw (get-index (put d e.predicate_id e) evidence pid) (rw get-put refl)

find-absent :
    (o : Option PredicateEvidence) (evidence : List PredicateEvidence) (pid : Text)
    → contains pid (evidence_ids evidence) ≡ false
    → find o evidence pid ≡ o
unfolding contains
find-absent o [] pid h = refl
find-absent o (e ∷ evidence) pid h = ground (arith, find-absent o evidence pid)

recorded-absent :
    (s : EvidenceState) (evidence : List PredicateEvidence) (pid : Text)
    → contains pid (evidence_ids evidence) ≡ false
    → recorded s pid evidence ≡ false
unfolding contains
recorded-absent s [] pid h = refl
recorded-absent s (e ∷ evidence) pid h = ground (arith, recorded-absent s evidence pid)

abbrev Agrees : List PredicateEvidence → Text → Type 0
Agrees evidence pid =
    (is_failed (find none evidence pid) ≡ recorded fail pid evidence)
    × (is_missing (find none evidence pid)
        ≡ not (recorded pass pid evidence || recorded fail pid evidence))

find-here :
    (e : PredicateEvidence) (evidence : List PredicateEvidence) (pid : Text)
    → e.predicate_id ≡ pid
    → contains pid (evidence_ids evidence) ≡ false
    → Agrees (e ∷ evidence) pid
find-here e evidence pid same absent = ground (
  arith,
  eq_iff e.predicate_id pid,
  find-absent (some e) evidence pid absent,
  recorded-absent pass evidence pid absent,
  recorded-absent fail evidence pid absent,
)

find-recorded :
    (evidence : List PredicateEvidence) (pid : Text)
    → is_distinct (evidence_ids evidence) ≡ true
    → Agrees evidence pid
unfolding is_distinct
find-recorded [] pid h = (refl, refl)
find-recorded (e ∷ evidence) pid h = elim (Bool-cases (e.predicate_id == pid)) [
  | inl same ↦
      let here = eq_of_== e.predicate_id pid same in
      find-here e evidence pid here (ground (arith, here))
  | inr other ↦ rw other (find-recorded evidence pid (ground arith))
]

module _ (evidence : List PredicateEvidence) (pid : Text)
    (distinct : is_distinct (evidence_ids evidence) ≡ true) where
  pub failed-get : is_failed (get (by_id evidence) pid) ≡ recorded fail pid evidence
  unfolding get
  failed-get = rw get-index ((find-recorded evidence pid distinct).0)

  pub missing-get :
      is_missing (get (by_id evidence) pid)
      ≡ not (recorded pass pid evidence || recorded fail pid evidence)
  unfolding get
  missing-get = rw get-index ((find-recorded evidence pid distinct).1)

any-contains :
    (p : Text → Bool) (a : Text) (xs : List Text)
    → contains a xs ≡ true
    → p a ≡ true
    → any p xs ≡ true
unfolding contains
any-contains p a [] h pa = ground arith
any-contains p a (x ∷ xs) h pa = ground (arith, eq_iff x a, any-contains p a xs)

-- A set holds what its list holds.
pub any-to_set : (p : Text → Bool) (xs : List Text) → any p (to_set xs) ≡ any p xs
unfolding to_set
any-to_set p [] = refl
any-to_set p (x ∷ xs) = ground (arith, any-to_set p xs, any-contains p x xs)

pub select-nil_iff : (p : Text → Bool) (xs : List Text) → (select p xs ≡ []) ↔ (any p xs ≡ false)
select-nil_iff p [] = (λ _. refl, λ _. refl)
select-nil_iff p (x ∷ xs) = ground (arith, select-nil_iff p xs)
