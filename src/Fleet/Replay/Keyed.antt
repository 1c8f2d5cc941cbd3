-- ===== src/Fleet/Replay/Keyed.antt =====
-- The dictionary of attempts: each is stored under its own id, once.
use long_haul.Prelude.{
  ◌≡◌, refl, sym, ◌∙◌, inl, inr, Bool, false, Option, none, some, [], ◌∷◌, map, arith, Bool-cases,
  select, Text, ◌==◌, ==_refl, eq_of_==, eq_iff, contains,
}
use long_haul.Prelude.Dict.{Dict, get, put, values, keys, contains-keys-put}
use long_haul.Fleet.Lease.{WorkAttempt}

abbrev pub Keyed : Dict WorkAttempt → Type 0
Keyed [] = Unit
Keyed ((k, w) ∷ d) = (w.attempt_id ≡ k) × (contains k (keys d) ≡ false) × Keyed d

pub put-Keyed :
    (d : Dict WorkAttempt) (k : Text) (w : WorkAttempt)
    → w.attempt_id ≡ k
    → Keyed d
    → Keyed (put d k w)
unfolding put contains
put-Keyed [] k w e h = ground arith
put-Keyed ((i, v) ∷ d) k w e h = elim (Bool-cases (i == k)) [
  | inl same ↦ rw same (e ∙ sym (eq_of_== i k same), h.1, h.2)
  | inr other ↦ rw other (
    h.0,
    ground (arith, contains-keys-put d k i w, eq_iff i k, eq_iff k i),
    put-Keyed d k w e h.2,
  )
]

pub get-Keyed :
    (d : Dict WorkAttempt) (k : Text) (w : WorkAttempt)
    → Keyed d
    → get d k ≡ some w
    → w.attempt_id ≡ k
unfolding get
get-Keyed [] k w h e = cc
get-Keyed ((i, v) ∷ d) k w h e = ground (arith, eq_iff i k, get-Keyed d k w)

abbrev pub holds : (WorkAttempt → Bool) → Option WorkAttempt → Bool
holds p none = false
holds p (some w) = p w

ids-absent :
    (p : WorkAttempt → Bool) (d : Dict WorkAttempt) (a : Text)
    → Keyed d
    → contains a (keys d) ≡ false
    → contains a (map (λ w. w.attempt_id) (select p (values d))) ≡ false
unfolding contains
ids-absent p [] a h absent = refl
ids-absent p ((i, v) ∷ d) a h absent = ground (arith, ids-absent p d a)

-- The ids of the stored attempts that pass a test are the keys whose attempt passes it.
pub contains-ids :
    (p : WorkAttempt → Bool) (d : Dict WorkAttempt) (a : Text)
    → Keyed d
    → contains a (map (λ w. w.attempt_id) (select p (values d))) ≡ holds p (get d a)
unfolding contains get
contains-ids p [] a h = refl
contains-ids p ((i, v) ∷ d) a h = elim (Bool-cases (i == a)) [
  | inl same ↦
      let here = eq_of_== i a same in
      let absent = ids-absent p d a h.2 (rw (← here) h.1) in
      rw same (ground (arith, here, absent, ==_refl a))
  | inr other ↦ rw other (ground (arith, contains-ids p d a h.2))
]
