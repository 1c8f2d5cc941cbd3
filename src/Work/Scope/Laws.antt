-- ===== src/Work/Scope/Laws.antt =====
-- What permits_path lets through, by the pieces of the path.
use long_haul.Prelude.{
  ℕ, ◌≡◌, refl, sym, ◌∙◌, inl, inr, true, false, List, [], ◌∷◌, ◌++◌, arith, nat_eq, nat_eq_iff,
  Bool-cases, Text, codes, ◌==◌,
}
use long_haul.Prelude.Results.{ok}
use long_haul.Prelude.Strings.{starts_with, split_on}
use long_haul.Prelude.{select-append}
use long_haul.Work.Scope.{parts, within, slash, validate_scope, permits_path}
use mathlib.Core.List.{append_assoc}

split_on-piece : (c : ℕ) (xs : Text) → (p : Text) × (ps : List Text) × (split_on c xs ≡ p ∷ ps)
unfolding split_on
split_on-piece c [] = ([], [], refl)
split_on-piece c (x ∷ xs) =
    let (p, ps, pieces) = split_on-piece c xs in
    elim (Bool-cases (nat_eq x c)) [
      | inl same ↦ ([], split_on c xs, rw same refl)
      | inr other ↦ (x ∷ p, ps, rw other (rw pieces refl))
    ]

-- A text is split at a separator in its middle.
split_on-append :
    (c : ℕ) (xs ys : Text) → split_on c (xs ++ c ∷ ys) ≡ split_on c xs ++ split_on c ys
unfolding split_on
split_on-append c [] ys = ground (arith, nat_eq_iff c c)
split_on-append c (x ∷ xs) ys =
    let (p, ps, pieces) = split_on-piece c xs in ground (arith, split_on-append c xs ys, pieces)

starts_with-common : (d a b : Text) → starts_with (d ++ a) (d ++ b) ≡ starts_with a b
unfolding starts_with
starts_with-common [] a b = refl
starts_with-common (x ∷ d) a b = ground (arith, nat_eq_iff x x, starts_with-common d a b)

==-common : (d a b : Text) → ((d ++ a) == (d ++ b)) ≡ (a == b)
unfolding ◌==◌
==-common [] a b = refl
==-common (x ∷ d) a b = ground (arith, nat_eq_iff x x, ==-common d a b)

parts-append : (xs ys : Text) → parts (xs ++ slash ∷ ys) ≡ parts xs ++ parts ys
unfolding parts
parts-append xs ys =
    rw (split_on-append slash xs ys) (select-append _ (split_on slash xs) (split_on slash ys))

parts-dot : (ys : Text) → parts (b'.' ∷ slash ∷ ys) ≡ parts ys
unfolding parts ◌==◌
parts-dot ys = parts-append (b'.' ∷ []) ys

within-dir : (d r : Text) → within (d ++ slash ∷ r) d ≡ true
unfolding within starts_with
within-dir d r = ground (arith, starts_with-common d (slash ∷ []) (slash ∷ r))

within-other :
    (d r root : Text) (n : ℕ)
    → nat_eq n b'.' ≡ false
    → within (d ++ slash ∷ b'.' ∷ r) (d ++ slash ∷ n ∷ root) ≡ false
unfolding within starts_with ◌==◌
within-other d r root n h = rw (==-common d (slash ∷ b'.' ∷ r) (slash ∷ n ∷ root)) (
    rw (append_assoc d (slash ∷ n ∷ root) (codes "/")) (
      rw (starts_with-common d ((slash ∷ n ∷ root) ++ codes "/") (slash ∷ b'.' ∷ r))
        (ground (arith, nat_eq_iff n b'.', nat_eq_iff b'.' n))))

-- A path that enters an allowed directory d by way of "." has the same parts as the path without
-- it, and is permitted, even if it names an entry of a forbidden root below d (one whose next part
-- does not begin with a dot), as long as the path is valid and normal already.
pub permits_path_dot :
    (d r root : Text) (n : ℕ)
    → nat_eq n b'.' ≡ false
    → validate_scope (d ++ slash ∷ b'.' ∷ slash ∷ r) ≡ ok (d ++ slash ∷ b'.' ∷ slash ∷ r)
    → (parts (d ++ slash ∷ b'.' ∷ slash ∷ r) ≡ parts (d ++ slash ∷ r))
      × (permits_path (d ∷ []) ((d ++ slash ∷ n ∷ root) ∷ []) (d ++ slash ∷ b'.' ∷ slash ∷ r)
          ≡ ok true)
unfolding permits_path
permits_path_dot d r root n h valid = (
  parts-append d (b'.' ∷ slash ∷ r) ∙ rw (parts-dot r) (sym (parts-append d r)),
  rw valid (rw (within-dir d (b'.' ∷ slash ∷ r)) (rw (within-other d (slash ∷ r) root n h) refl)),
)
