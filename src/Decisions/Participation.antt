-- ===== src/Decisions/Participation.antt =====
-- Who has spoken when a decision is resolved.
use long_haul.Prelude.{
  suc, ◌≡◌, refl, sym, ap, ◌∙◌, inl, inr, true, false, not, Option, List, [], ◌∷◌, ◌++◌, arith,
  if◌then◌else◌, nat_eq_iff, Bool-cases, length, all, all-append, Text, ◌==◌, eq_iff, contains,
  is_distinct,
}
use long_haul.Prelude.Results.{Result, ok, value_error, ◌>>=◌, >>=-eq-ok, passed}
use long_haul.Prelude.{is_distinct-append}
use mathlib.Core.List.{append-nil, append_assoc, map-append}
use long_haul.Decisions.{
  DecisionPosition, DecisionRecord, Resolution, truthy, participants_of, capture_initial,
  lacks_positions, resolve,
}

-- The list without the first occurrence of a text.
unfoldable without : Text → List Text → List Text
without a [] = []
without a (x ∷ xs) = let rest = without a xs in if x == a then xs else x ∷ rest

length-without :
    (a : Text) (xs : List Text) → contains a xs ≡ true → length xs ≡ suc (length (without a xs))
unfolding without contains
length-without a [] h = absurd (ground arith)
length-without a (x ∷ xs) h = ground (arith, eq_iff x a, eq_iff a x, length-without a xs)

contains-without :
    (a b : Text) (xs : List Text)
    → (a == b) ≡ false
    → contains b xs ≡ true
    → contains b (without a xs) ≡ true
unfolding without contains
contains-without a b [] other h = absurd (ground arith)
contains-without a b (x ∷ xs) other h =
    ground (arith, eq_iff a b, eq_iff x a, eq_iff x b, eq_iff b x, contains-without a b xs)

all-without :
    (a : Text) (xs ys : List Text)
    → contains a ys ≡ false
    → all (λ y. contains y xs) ys ≡ true
    → all (λ y. contains y (without a xs)) ys ≡ true
unfolding contains
all-without a xs [] fresh h = refl
all-without a xs (y ∷ ys) fresh h =
    ground (arith, eq_iff y a, eq_iff a y, contains-without a y xs, all-without a xs ys)

-- Distinct members of a list that are as many as the list's items are all of them.
pub pigeonhole :
    (ys xs : List Text) (a : Text)
    → is_distinct ys ≡ true
    → all (λ y. contains y xs) ys ≡ true
    → length ys ≡ length xs
    → contains a xs ≡ true
    → contains a ys ≡ true
unfolding is_distinct contains
pigeonhole [] [] a distinct inside same h = h
pigeonhole [] (x ∷ xs) a distinct inside same h = absurd (ground arith)
pigeonhole (y ∷ ys) xs a distinct inside same h = elim (Bool-cases (y == a)) [
  | inl here ↦ ground (arith, eq_iff y a, eq_iff a y)
  | inr other ↦ ground (
    arith,
    length-without y xs,
    contains-without y a xs other,
    all-without y xs ys,
    pigeonhole ys (without y xs) a,
    eq_iff y a,
    eq_iff a y,
  )
]

contains-all :
    (ys xs : List Text) (a : Text)
    → all (λ y. contains y xs) ys ≡ true
    → contains a ys ≡ true
    → contains a xs ≡ true
unfolding contains
contains-all [] xs a inside h = absurd (ground arith)
contains-all (y ∷ ys) xs a inside h = ground (arith, eq_iff y a, eq_iff a y, contains-all ys xs a)

-- The same texts, when they are as many.
contains-same :
    (ys xs : List Text) (a : Text)
    → is_distinct ys ≡ true
    → all (λ y. contains y xs) ys ≡ true
    → length ys ≡ length xs
    → contains a ys ≡ contains a xs
contains-same ys xs a distinct inside same =
    ground (arith, contains-all ys xs a inside, pigeonhole ys xs a distinct inside same)

length-participants_of : (ps : List DecisionPosition) → length (participants_of ps) ≡ length ps
length-participants_of [] = refl
length-participants_of (p ∷ ps) = ap suc (length-participants_of ps)

-- The positions are captured one after the other; the first that is refused ends it.
unfoldable pub capture_all : DecisionRecord → List DecisionPosition → Result DecisionRecord
unfolding capture_initial
capture_all r [] = ok r
capture_all r (p ∷ ps) = do r' ← capture_initial r p; capture_all r' ps

-- The initial positions are those of distinct participants.
abbrev pub IsIndependent : DecisionRecord → Type 0
IsIndependent r =
    (is_distinct (participants_of r.initial_positions) ≡ true)
    × (all (λ a. contains a r.participants) (participants_of r.initial_positions) ≡ true)

pub capture_initial-ok :
    (r r' : DecisionRecord) (p : DecisionPosition)
    → capture_initial r p ≡ ok r'
    → (contains p.participant r.participants ≡ true)
      × (contains p.participant (participants_of r.initial_positions) ≡ false)
      × (r' ≡ record r { initial_positions = r.initial_positions ++ p ∷ [] })
unfolding capture_initial
capture_initial-ok r r' p h =
    let (member, h1) = passed (not (contains p.participant r.participants)) value_error _ h in
    let (fresh, h2) =
      passed (contains p.participant (participants_of r.initial_positions)) value_error _ h1 in
    (ground arith, fresh, ground arith)

capture_initial-IsIndependent :
    (r r' : DecisionRecord) (p : DecisionPosition)
    → capture_initial r p ≡ ok r'
    → IsIndependent r
    → IsIndependent r'
capture_initial-IsIndependent r r' p h (distinct, inside) =
    let (member, fresh, same) = capture_initial-ok r r' p h in
    let names = participants_of r.initial_positions in
    let grown : participants_of (r.initial_positions ++ p ∷ []) ≡ names ++ p.participant ∷ [] =
      map-append (λ (q : DecisionPosition). q.participant) r.initial_positions (p ∷ []) in
    rw same (
      rw grown (
        ground (arith, is_distinct-append names p.participant),
        ground (arith, all-append (λ a. contains a r.participants) names (p.participant ∷ [])),
      ))

pub capture_all-IsIndependent :
    (r r' : DecisionRecord) (ps : List DecisionPosition)
    → capture_all r ps ≡ ok r'
    → IsIndependent r
    → IsIndependent r' × (r' ≡ record r { initial_positions = r.initial_positions ++ ps })
unfolding capture_all
capture_all-IsIndependent r r' [] h i =
    let same : r' ≡ r = ground arith in (rw same i, rw same (rw append-nil refl))
capture_all-IsIndependent r r' (p ∷ ps) h i =
    let (next, first, rest) = >>=-eq-ok (capture_initial r p) _ h in
    let (member, fresh, grown) = capture_initial-ok r next p first in
    let (done, end) =
      capture_all-IsIndependent next r' ps rest (capture_initial-IsIndependent r next p first i) in
    (done, end ∙ rw grown (rw append_assoc refl))

-- From a record without positions, whatever is captured: if a consequential decision without an
-- exception can be resolved, then every participant has given an initial position, and nobody else.
pub resolve_complete :
    (r captured resolved : DecisionRecord) (ps : List DecisionPosition) (resolution : Resolution)
    (action : Text) (holder : Option Text) (a : Text)
    → r.initial_positions ≡ []
    → r.consequential ≡ true
    → truthy r.exception ≡ false
    → capture_all r ps ≡ ok captured
    → resolve captured resolution action holder ≡ ok resolved
    → contains a (participants_of ps) ≡ contains a r.participants
unfolding resolve
resolve_complete r captured resolved ps resolution action holder a none_yet weighty plain ran h =
    let start : IsIndependent r = rw none_yet (unfold is_distinct in (refl, refl)) in
    let ((distinct, inside), same) = capture_all-IsIndependent r captured ps ran start in
    let positions : captured.initial_positions ≡ ps = rw same (rw none_yet refl) in
    let members : captured.participants ≡ r.participants = rw same refl in
    let weight : captured.consequential ≡ true = rw same weighty in
    let reason : truthy captured.exception ≡ false = rw same plain in
    let (enough, h1) = passed (lacks_positions captured) value_error _ h in
    let count : length captured.initial_positions ≡ length captured.participants =
      ground
        (arith, nat_eq_iff (length captured.initial_positions) (length captured.participants)) in
    ap (λ qs. contains a (participants_of qs)) (sym positions)
    ∙ contains-same (participants_of captured.initial_positions) captured.participants a distinct
        inside (length-participants_of captured.initial_positions ∙ count)
    ∙ ap (contains a) members
