-- ===== src/Work/Scope/Examples.antt =====
-- Tests of path scopes, and the theorem at such an input.
use long_haul.Prelude.{◌≡◌, refl, true, false, [], ◌∷◌, codes, ◌==◌}
use long_haul.Prelude.Results.{ok, err, value_error}
use long_haul.Work.Scope.{parts, permits_path, validate_scope}
use long_haul.Work.Scope.Laws.{permits_path_dot}

test_scope : validate_scope (codes " src\\app/ ") ≡ ok (codes "src/app")
unfolding validate_scope ◌==◌
test_scope = refl

-- The plain path into the forbidden root is refused, and so is a way out by "..".
test_permits :
    (permits_path (codes "src" ∷ []) (codes "src/secret" ∷ []) (codes "src/secret/key") ≡ ok false)
    × (permits_path (codes "src" ∷ []) [] (codes "src/../key") ≡ err value_error)
unfolding permits_path ◌==◌
test_permits = (refl, refl)

valid_dot : validate_scope (codes "src/./secret/key") ≡ ok (codes "src/./secret/key")
unfolding validate_scope ◌==◌
valid_dot = refl

permits_path_dot_example :
    (parts (codes "src/./secret/key") ≡ parts (codes "src/secret/key"))
    × (permits_path (codes "src" ∷ []) (codes "src/secret" ∷ []) (codes "src/./secret/key")
        ≡ ok true)
permits_path_dot_example =
    permits_path_dot (codes "src") (codes "secret/key") (codes "ecret") b's' refl valid_dot
