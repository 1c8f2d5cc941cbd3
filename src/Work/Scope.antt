-- ===== src/Work/Scope.antt =====
-- Repository-relative path scopes (src/long_haul/work/contracts.py: _validate_scope and
-- WorkContract.permits_path).
pub mod Laws
mod Examples
use long_haul.Prelude.{
  ℕ, Bool, true, false, not, ◌&&◌, ◌||◌, List, [], ◌∷◌, ◌++◌, Text, ◌==◌, codes, contains, nat_eq,
  any, select,
}
use long_haul.Prelude.Strings.{strip, rstrip, replace, starts_with, split_on}
use long_haul.Prelude.Results.{Result, ok, err, value_error, ◌>>=◌, ◌>>◌, raise_if}

abbrev pub slash : ℕ
slash = b'/'

-- PurePosixPath(value).parts for a relative path: the pieces but the empty ones and "."
unfoldable pub parts : Text → List Text
unfolding split_on
parts value = select (λ p. not ((p == []) || (p == codes "."))) (split_on slash value)

-- value.strip().replace("\\", "/")
unfoldable pub normalize : Text → Text
unfolding strip replace
normalize path = replace b'\\' slash (strip path)

unfoldable pub is_refused : Text → Bool
unfolding parts contains starts_with
is_refused value =
    (value == []) || starts_with (codes "/") value || contains (codes "..") (parts value)

unfoldable pub validate_scope : Text → Result Text
unfolding is_refused normalize rstrip
validate_scope path = do
  let value = normalize path
  raise_if (is_refused value) value_error
  ok (rstrip (λ c. nat_eq c slash) value)

-- within(root) of permits_path
unfoldable pub within : Text → Text → Bool
unfolding starts_with
within candidate root = (candidate == root) || starts_with (root ++ codes "/") candidate

-- WorkContract.permits_path on the contract's two lists
unfoldable pub permits_path : List Text → List Text → Text → Result Bool
unfolding within validate_scope
permits_path allowed forbidden path = do
  candidate ← validate_scope path
  ok (any (within candidate) allowed && not (any (within candidate) forbidden))
