-- ===== src/Requirements/Manifests.antt =====
-- safe_path, the native records and the inventory of tools/requirements.py.
use long_haul.Prelude.{
  ℕ, ◌+◌, not, ◌&&◌, Option, none, some, List, [], ◌∷◌, ltb, if◌then◌else◌, is_some, length, select,
  Text, codes, ◌==◌, contains,
}
use long_haul.Prelude.Results.{Result, ok, err, value_error, ◌>>=◌, ◌>>◌, raise_if}
use long_haul.Prelude.Dict.{Dict, get, put}
use long_haul.Prelude.Strings.{is_space, strip, drop_while, split_on, split_lines}
use long_haul.Requirements.{
  max_manifest, max_manifests, max_total_bytes, Tree, Item, Native, no_native, fields, Manifest,
  Declaration, Inventory, unique_object, is_refused_name, is_selection, one_selection,
  validate_profiles,
}

module _ {Json : Type 0} (tree : Tree Json) where
  abbrev pub inside : Option (List Text) → Result (List Text)
  inside none = err value_error
  inside (some parts) = do
    raise_if (not (tree.is_file parts)) value_error
    raise_if (contains (codes ".git") parts) value_error
    ok parts

  unfoldable pub safe_path : Text → Result (List Text)
  unfolding split_on contains ◌==◌
  safe_path name = do
    raise_if (is_refused_name name) value_error
    target ← tree.resolve name
    inside target

  unfoldable pub read_bounded : List Text → ℕ → Result (List ℕ)
  read_bounded path maximum = do
    content ← tree.read path (maximum + 1)
    raise_if (ltb maximum (length content)) value_error
    ok content

  abbrev pub found : Text → Option Json → Dict Json → Dict Json
  found key none picked = picked
  found key (some value) picked = (key, value) ∷ picked

  -- {key: d[key] for key in names if key in d}
  unfoldable pub pick : List Text → Dict Json → Dict Json
  unfolding get
  pick [] d = []
  pick (key ∷ names) d = found key (get d key) (pick names d)

  abbrev pub table_of : Option Json → Result (Dict Json)
  table_of none = ok []
  table_of (some value) = tree.table value

  -- _python_native
  unfoldable pub python_native : List ℕ → Result (Native Json)
  unfolding pick get
  python_native content = do
    document ← tree.toml content
    project ← table_of (get document (codes "project"))
    ok (
        fields (
          pick (codes "requires-python" ∷ codes "dependencies" ∷ codes "optional-dependencies" ∷ [])
            project))

  -- _node_native
  unfoldable pub node_native : List ℕ → Result (Native Json)
  unfolding pick unique_object
  node_native content = do
    native ← tree.json (λ pairs. unique_object pairs []) content
    ok (
        fields (
          pick
            (codes "engines"
              ∷ codes "packageManager"
              ∷ codes "dependencies"
              ∷ codes "devDependencies"
              ∷ [])
            native))

  -- _rust_native
  unfoldable pub rust_native : List ℕ → Result (Native Json)
  unfolding pick get
  rust_native content = do
    document ← tree.toml content
    section ← table_of (get document (codes "package"))
    ok (fields (pick (codes "edition" ∷ codes "rust-version" ∷ []) section))

  -- _toolchain_native
  unfoldable pub toolchain_native : List ℕ → Result (Native Json)
  unfolding split_lines strip drop_while is_space
  toolchain_native content = do
    text ← tree.decode content
    one_selection (select is_selection (split_lines text))

  -- path.name
  unfoldable pub file_name : List Text → Text
  file_name [] = []
  file_name (part ∷ []) = part
  file_name (part ∷ next ∷ parts) = file_name (next ∷ parts)

  abbrev pub toolchain_files : List Text
  toolchain_files =
      codes ".nvmrc"
      ∷ codes ".node-version"
      ∷ codes ".python-version"
      ∷ codes "lean-toolchain"
      ∷ codes "rust-toolchain"
      ∷ []

  abbrev pub native_of : List Text → Text → List ℕ → Result (Native Json)
  native_of path kind content =
      if kind == codes "python-project"
      then python_native content
      else if kind == codes "node-project"
      then node_native content
      else if kind == codes "rust-project"
      then rust_native content
      else if kind == codes "toolchain" && contains (file_name path) toolchain_files
      then toolchain_native content
      else ok no_native

  unfoldable pub native_manifest_record : List Text → Item → List ℕ → Result (Manifest Json)
  unfolding python_native node_native rust_native toolchain_native file_name contains ◌==◌
  native_manifest_record path item content = do
    native ← native_of path item.kind content
    ok (record { kind = item.kind; sha256 = tree.sha256 content; native = native })

  -- The loop of collect_manifests, with the bytes read so far and the manifests so far.
  unfoldable pub collect : ℕ → Dict (Manifest Json) → List Item → Result (ℕ × Dict (Manifest Json))
  unfolding get put safe_path read_bounded native_manifest_record
  collect total manifests [] = ok (total, manifests)
  collect total manifests (item ∷ items) = do
    raise_if (is_some (get manifests item.path)) value_error
    path ← safe_path item.path
    content ← read_bounded path max_manifest
    raise_if (ltb max_total_bytes (total + length content)) value_error
    manifest ← native_manifest_record path item content
    collect (total + length content) (put manifests item.path manifest) items

  unfoldable pub collect_manifests : List Item → Result (Dict (Manifest Json))
  unfolding collect
  collect_manifests declarations = do
    raise_if (ltb max_manifests (length declarations)) value_error
    collected ← collect 0 [] declarations
    ok collected.1

  unfoldable pub inventory : Declaration → List ℕ → Result (Inventory Json)
  unfolding collect_manifests validate_profiles
  inventory declared raw = do
    manifests ← collect_manifests declared.manifests
    validate_profiles declared.profiles manifests
    ok (record {
      repository = declared.repository;
      requirements_sha256 = tree.sha256 raw;
      manifests = manifests;
      profiles = declared.profiles;
    })
