-- ===== src/Requirements.antt =====
-- The checks of tools/requirements.py on names, lines and profiles; Manifests has those on files,
-- and the inventory.
-- Parameters: the file system, the TOML and JSON parsers (the latter with its object hook), and
-- SHA-256. A resolved path is the list of its parts below the source tree, or `none` outside of it.
pub mod Manifests
pub mod Laws
mod Examples
use long_haul.Prelude.{
  ℕ, ◌+◌, ◌*◌, ◌≤◌, ◌≡◌, Bool, true, false, not, ◌&&◌, ◌||◌, Option, none, some, List, [], ◌∷◌,
  ◌++◌, ltb, leb, nat_eq, if◌then◌else◌, is_some, is_none, length, select, any, all, Text, codes,
  ◌==◌, contains,
}
use long_haul.Prelude.Results.{Result, ok, err, value_error, ◌>>=◌, ◌>>◌, raise_if}
use long_haul.Prelude.Dict.{Dict, get, put, keys}
use long_haul.Prelude.Strings.{is_space, strip, drop_while, split_on}

abbrev pub max_manifest : ℕ
max_manifest = 16 * 1024 * 1024

abbrev pub max_manifests : ℕ
max_manifests = 128

abbrev pub max_total_bytes : ℕ
max_total_bytes = 64 * 1024 * 1024

pub record Tree (Json : Type 0) : Type 0 where
  pub resolve : Text → Result (Option (List Text))
  pub is_file : List Text → Bool
  pub read : List Text → ℕ → Result (List ℕ)
  pub toml : List ℕ → Result (Dict Json)
  pub json : (Dict Json → Result (Dict Json)) → List ℕ → Result (Dict Json)
  pub table : Json → Result (Dict Json)
  pub decode : List ℕ → Result Text
  pub sha256 : List ℕ → Text

pub record Item : Type 0 where
  pub path : Text
  pub kind : Text

pub data Native (Json : Type 0) : Type 0 where
  no_native : Native Json
  fields : Dict Json → Native Json
  selection : Text → Native Json

pub record Manifest (Json : Type 0) : Type 0 where
  pub kind : Text
  pub sha256 : Text
  pub native : Native Json

-- What a profile needs of a tool: the manifests that name it.
pub record Need : Type 0 where
  pub sources : List Text

pub record Profile : Type 0 where
  pub tools : Dict Need

pub record Declaration : Type 0 where
  pub repository : Text
  pub manifests : List Item
  pub profiles : Dict Profile

pub record Inventory (Json : Type 0) : Type 0 where
  pub repository : Text
  pub requirements_sha256 : Text
  pub manifests : Dict (Manifest Json)
  pub profiles : Dict Profile

-- unique_object
unfoldable pub unique_object : {A : Type 0} → Dict A → Dict A → Result (Dict A)
unfolding put get
unique_object [] result = ok result
unique_object ((key, value) ∷ pairs) result = do
  raise_if (is_some (get result key)) value_error
  unique_object pairs (put result key value)

-- PurePosixPath(name).is_absolute()
abbrev pub is_absolute : Text → Bool
is_absolute [] = false
is_absolute (c ∷ cs) = nat_eq c 47

abbrev pub is_refused_part : Text → Bool
is_refused_part part = part == codes ".." || part == codes ".git"

-- The tests of safe_path on the text of the name.
abbrev pub is_refused_name : Text → Bool
is_refused_name [] = true
is_refused_name (c ∷ cs) =
    any (nat_eq 92) (c ∷ cs) || is_absolute (c ∷ cs) || any is_refused_part (split_on 47 (c ∷ cs))

abbrev pub is_comment : Text → Bool
is_comment [] = false
is_comment (c ∷ cs) = nat_eq c 35

abbrev pub is_blank : Text → Bool
is_blank [] = true
is_blank (c ∷ cs) = false

abbrev pub is_selection : Text → Bool
is_selection line = not (is_blank (strip line)) && not (is_comment (drop_while is_space line))

abbrev pub one_selection : {Json : Type 0} → List Text → Result (Native Json)
one_selection (line ∷ []) =
    if ltb 512 (length (strip line)) then err value_error else ok (selection (strip line))
one_selection _ = err value_error

abbrev pub is_lower : ℕ → Bool
is_lower c = leb 97 c && leb c 122

abbrev pub is_digit : ℕ → Bool
is_digit c = leb 48 c && leb c 57

-- [a-z][a-z0-9-]*
abbrev pub is_profile_name : Text → Bool
is_profile_name [] = false
is_profile_name (c ∷ cs) = is_lower c && all (λ x. is_lower x || is_digit x || nat_eq x 45) cs

-- [a-z][a-z0-9+.-]*
abbrev pub is_tool_name : Text → Bool
is_tool_name [] = false
is_tool_name (c ∷ cs) =
    is_lower c
    && all (λ x. is_lower x || is_digit x || nat_eq x 43 || nat_eq x 46 || nat_eq x 45) cs

abbrev pub is_empty : {A : Type 0} → List A → Bool
is_empty [] = true
is_empty (x ∷ xs) = false

-- The tools of one profile.
unfoldable pub check_tools : {A : Type 0} → Dict A → Dict Need → Result (Unit {0})
unfolding get
check_tools manifests [] = ok tt
check_tools manifests ((tool, need) ∷ tools) = do
  raise_if (not (is_tool_name tool)) value_error
  raise_if (any (λ source. is_none (get manifests source)) need.sources) value_error
  check_tools manifests tools

unfoldable pub check_profiles : {A : Type 0} → Dict A → Dict Profile → Result (Unit {0})
unfolding check_tools
check_profiles manifests [] = ok tt
check_profiles manifests ((name, profile) ∷ profiles) = do
  raise_if (not (is_profile_name name) || is_empty profile.tools) value_error
  raise_if (ltb 256 (length profile.tools)) value_error
  check_tools manifests profile.tools
  check_profiles manifests profiles

unfoldable pub validate_profiles : {A : Type 0} → Dict Profile → Dict A → Result (Unit {0})
unfolding check_profiles
validate_profiles profiles manifests = do
  raise_if (is_empty profiles) value_error
  raise_if (ltb 128 (length profiles)) value_error
  check_profiles manifests profiles
