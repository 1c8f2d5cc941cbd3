-- ===== src/Requirements/Examples.antt =====
-- An inventory of two manifests, and the theorem at it.
use long_haul.Prelude.{
  ◌==◌, ℕ, ◌≤◌, ◌≡◌, refl, true, not, ◌&&◌, some, [], ◌∷◌, map, take, leb, length, Text, codes,
  is_distinct,
}
use long_haul.Prelude.Results.{ok, err, value_error}
use long_haul.Prelude.Dict.{keys}
use long_haul.Requirements.{
  Tree, Declaration, Inventory, fields, selection, max_manifests, is_empty, unique_object,
}
use long_haul.Requirements.Manifests.{safe_path, toolchain_native, inventory}
use long_haul.Requirements.Laws.{declared_profiles, inventory-ok}

-- JSON values are numbers; every path is a file that has the bytes of one text.
abbrev tree : Text → Tree ℕ
tree text = record {
  resolve = λ name. ok (some (name ∷ []));
  is_file = λ path. true;
  read = λ path size. ok (take size text);
  toml = λ content. ok ((codes "project", 1) ∷ []);
  json = λ hook content. hook ((codes "engines", 2) ∷ (codes "engines", 3) ∷ []);
  table = λ value. ok ((codes "dependencies", value) ∷ (codes "name", value) ∷ []);
  decode = λ content. ok content;
  sha256 = λ content. content;
}

abbrev declared : Declaration
declared = record {
  repository = codes "r";
  manifests =
      record { path = codes "pyproject.toml"; kind = codes "python-project" }
      ∷ record { path = codes ".nvmrc"; kind = codes "toolchain" }
      ∷ [];
  profiles =
      (
        codes "dev",
        record { tools = (codes "node", record { sources = codes ".nvmrc" ∷ [] }) ∷ [] },
      )
      ∷ [];
}

abbrev report : Inventory ℕ
report = record {
  repository = codes "r";
  requirements_sha256 = codes "raw";
  manifests =
      (
        codes "pyproject.toml",
        record {
          kind = codes "python-project";
          sha256 = codes "v20";
          native = fields ((codes "dependencies", 1) ∷ []);
        },
      )
      ∷ (
        codes ".nvmrc",
        record { kind = codes "toolchain"; sha256 = codes "v20"; native = selection (codes "v20") },
      )
      ∷ [];
  profiles = declared.profiles;
}

collected : inventory (tree (codes "v20")) declared (codes "raw") ≡ ok report
unfolding inventory is_distinct
collected = refl

refused-parent : safe_path (tree []) (codes "a/../b") ≡ err value_error
unfolding safe_path
refused-parent = refl

selected : toolchain_native (tree []) (codes " # node\n  v20 \n") ≡ ok (selection (codes "v20"))
unfolding toolchain_native
selected = refl

refused-duplicate :
    unique_object {A = ℕ} ((codes "a", 1) ∷ (codes "a", 2) ∷ []) [] ≡ err value_error
unfolding unique_object ◌==◌
refused-duplicate = refl

inventory-ok_example :
    (keys report.manifests ≡ map (λ item. item.path) declared.manifests)
    × (is_distinct (keys report.manifests) ≡ true)
    × (length declared.manifests ≤ max_manifests)
    × ((not (is_empty report.profiles) && leb (length report.profiles) 128) ≡ true)
    × (declared_profiles (keys report.manifests) report.profiles ≡ true)
inventory-ok_example = inventory-ok (tree (codes "v20")) declared (codes "raw") report collected
