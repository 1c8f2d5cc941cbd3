-- ===== src/Requirements/Laws.antt =====
-- What the inventory guarantees of its manifests and of the profiles that refer to them.
use long_haul.Prelude.{
  ℕ, ◌+◌, ◌≤◌, ◌≡◌, refl, sym, ap, ◌∙◌, inl, inr, Bool, true, false, not, ◌&&◌, ◌||◌, List, [], ◌∷◌,
  ◌++◌, map, arith, ltb, leb, length, is_some, is_none, any, all, Text, ◌==◌, eq_iff, contains,
  is_distinct, contains-append, Bool-cases,
}
use mathlib.Core.Path.{subst}
use long_haul.Prelude.Results.{ok, >>=-eq-ok, passed}
use long_haul.Prelude.Dict.{Dict, get, put, keys}
use long_haul.Requirements.{
  Tree, Item, Need, Profile, Declaration, Manifest, Inventory, max_manifest, max_manifests,
  max_total_bytes, is_empty, is_profile_name, is_tool_name, check_tools, check_profiles,
  validate_profiles,
}
use long_haul.Requirements.Manifests.{
  safe_path, read_bounded, native_manifest_record, collect, collect_manifests, inventory,
}

-- Every source that a tool of the profile names is a key.
abbrev pub declared_tools : List Text → Dict Need → Bool
declared_tools names [] = true
declared_tools names ((tool, need) ∷ tools) =
    is_tool_name tool
    && all (λ source. contains source names) need.sources
    && declared_tools names tools

abbrev pub declared_profiles : List Text → Dict Profile → Bool
declared_profiles names [] = true
declared_profiles names ((name, profile) ∷ profiles) =
    is_profile_name name
    && not (is_empty profile.tools)
    && leb (length profile.tools) 256
    && declared_tools names profile.tools
    && declared_profiles names profiles

module _ {A : Type 0} where
  get-contains : (d : Dict A) (k : Text) → is_none (get d k) ≡ not (contains k (keys d))
  unfolding get contains
  get-contains [] k = refl
  get-contains ((j, a) ∷ d) k = ground (arith, get-contains d k)

  sources-contains :
      (d : Dict A) (sources : List Text)
      → any (λ source. is_none (get d source)) sources ≡ false
      → all (λ source. contains source (keys d)) sources ≡ true
  sources-contains d [] h = refl
  sources-contains d (k ∷ ks) h = ground (arith, get-contains d k, sources-contains d ks)

  check_tools-ok :
      (d : Dict A) (tools : Dict Need)
      → check_tools d tools ≡ ok tt
      → declared_tools (keys d) tools ≡ true
  unfolding check_tools
  check_tools-ok d [] h = refl
  check_tools-ok d ((tool, need) ∷ tools) h =
      let (named, h1) = passed (not (is_tool_name tool)) _ _ h in
      let (declared, h2) = passed (any (λ k. is_none (get d k)) need.sources) _ _ h1 in
      ground (arith, sources-contains d need.sources declared, check_tools-ok d tools h2)

  check_profiles-ok :
      (d : Dict A) (profiles : Dict Profile)
      → check_profiles d profiles ≡ ok tt
      → declared_profiles (keys d) profiles ≡ true
  unfolding check_profiles
  check_profiles-ok d [] h = refl
  check_profiles-ok d ((name, profile) ∷ profiles) h =
      let (named, h1) = passed (not (is_profile_name name) || is_empty profile.tools) _ _ h in
      let (few, h2) = passed (ltb 256 (length profile.tools)) _ _ h1 in
      let (u, tools, h3) = >>=-eq-ok (check_tools d profile.tools) _ h2 in
      ground (arith, check_tools-ok d profile.tools tools, check_profiles-ok d profiles h3)

  keys-put-new :
      (d : Dict A) (k : Text) (a : A)
      → is_some (get d k) ≡ false
      → keys (put d k a) ≡ keys d ++ k ∷ []
  unfolding get put
  keys-put-new [] k a h = refl
  keys-put-new ((j, b) ∷ d) k a h = elim (Bool-cases (j == k)) [
    | inl same ↦ absurd (ground (arith, same))
    | inr other ↦
        rw other (ap (λ (ks : List Text). j ∷ ks) (keys-put-new d k a (ground (arith, other))))
  ]

ok_inj : {A : Type 0} (a b : A) → ok a ≡ ok b → a ≡ b
ok_inj a b h = cc

append-nil : (ks : List Text) → ks ++ [] ≡ ks
append-nil [] = refl
append-nil (k ∷ ks) = ap (λ (rest : List Text). k ∷ rest) (append-nil ks)

append-snoc :
    (ks : List Text) (k : Text) (rest : List Text) → (ks ++ k ∷ []) ++ rest ≡ ks ++ k ∷ rest
append-snoc [] k rest = refl
append-snoc (j ∷ js) k rest = ap (λ (tail : List Text). j ∷ tail) (append-snoc js k rest)

distinct-snoc :
    (ks : List Text) (k : Text)
    → is_distinct ks ≡ true
    → contains k ks ≡ false
    → is_distinct (ks ++ k ∷ []) ≡ true
unfolding is_distinct contains
distinct-snoc [] k d h = refl
distinct-snoc (j ∷ js) k d h =
    ground (arith, contains-append j js (k ∷ []), distinct-snoc js k, eq_iff j k, eq_iff k j)

module _ {Json : Type 0} (tree : Tree Json) where
  -- The manifests that were collected, and the bytes that were read for them.
  record Collected (items : List Item) (before : Dict (Manifest Json))
      (after : ℕ × Dict (Manifest Json)) : Type 0 where
    names : keys after.1 ≡ keys before ++ map (λ item. item.path) items
    distinct : is_distinct (keys after.1) ≡ true
    total : after.0 ≤ max_total_bytes

  collect-ok :
      (items : List Item) (total : ℕ) (before : Dict (Manifest Json))
      (after : ℕ × Dict (Manifest Json))
      → total ≤ max_total_bytes
      → is_distinct (keys before) ≡ true
      → collect tree total before items ≡ ok after
      → Collected items before after
  unfolding collect
  collect-ok [] total before after small distinct h =
      subst (Collected [] before) (ok_inj (total, before) after h)
        (record { names = sym (append-nil (keys before)); distinct = distinct; total = small })
  collect-ok (item ∷ items) total before after small distinct h =
      let (fresh, h1) = passed (is_some (get before item.path)) _ _ h in
      let (path, named, h2) = >>=-eq-ok (safe_path tree item.path) _ h1 in
      let (content, read, h3) = >>=-eq-ok (read_bounded tree path max_manifest) _ h2 in
      let (bounded, h4) = passed (ltb max_total_bytes (total + length content)) _ _ h3 in
      let (manifest, made, h5) = >>=-eq-ok (native_manifest_record tree path item content) _ h4 in
      let added = keys-put-new before item.path manifest fresh in
      let new : is_distinct (keys (put before item.path manifest)) ≡ true =
        ap is_distinct added
        ∙ distinct-snoc (keys before) item.path distinct
            (ground (arith, get-contains before item.path, fresh)) in
      let rest =
        collect-ok items (total + length content) (put before item.path manifest) after
          (ground (arith, bounded)) new h5 in
      record {
        names =
            rest.names
            ∙ ap (λ ks. ks ++ map (λ (i : Item). i.path) items) added
            ∙ append-snoc (keys before) item.path (map (λ (i : Item). i.path) items);
        distinct = rest.distinct;
        total = rest.total;
      }

  -- An inventory lists the declared manifests, in their order, each once and at most max_manifests
  -- of them; it has at least one profile and at most 128; and every profile has a valid name and
  -- between 1 and 256 tools, each of them with a valid name and with sources that are among the
  -- manifests.
  pub inventory-ok :
      (declared : Declaration) (raw : List ℕ) (report : Inventory Json)
      → inventory tree declared raw ≡ ok report
      → (keys report.manifests ≡ map (λ item. item.path) declared.manifests)
        × (is_distinct (keys report.manifests) ≡ true)
        × (length declared.manifests ≤ max_manifests)
        × ((not (is_empty report.profiles) && leb (length report.profiles) 128) ≡ true)
        × (declared_profiles (keys report.manifests) report.profiles ≡ true)
  unfolding inventory collect_manifests validate_profiles is_distinct
  inventory-ok declared raw report h =
      let (manifests, collected, h1) = >>=-eq-ok (collect_manifests tree declared.manifests) _ h in
      let (u, valid, h2) = >>=-eq-ok (validate_profiles declared.profiles manifests) _ h1 in
      let (few, c1) = passed (ltb max_manifests (length declared.manifests)) _ _ collected in
      let (after, run, c2) = >>=-eq-ok (collect tree 0 [] declared.manifests) _ c1 in
      let (some_profile, v1) = passed (is_empty declared.profiles) _ _ valid in
      let (few_profiles, v2) = passed (ltb 128 (length declared.profiles)) _ _ v1 in
      let facts = collect-ok declared.manifests 0 [] after (omega arith) refl run in
      let same : after.1 ≡ manifests = ok_inj after.1 manifests c2 in
      let P : Inventory Json → Type 0 = λ report.
        (keys report.manifests ≡ map (λ (item : Item). item.path) declared.manifests)
        × (is_distinct (keys report.manifests) ≡ true)
        × (length declared.manifests ≤ max_manifests)
        × ((not (is_empty report.profiles) && leb (length report.profiles) 128) ≡ true)
        × (declared_profiles (keys report.manifests) report.profiles ≡ true) in
      subst P (ok_inj _ report h2) (
        subst
            (λ (d : Dict (Manifest Json)).
              keys d ≡ map (λ (item : Item). item.path) declared.manifests)
            same facts.names,
        subst (λ (d : Dict (Manifest Json)). is_distinct (keys d) ≡ true) same facts.distinct,
        ground (arith, few),
        ground (arith, some_profile, few_profiles),
        check_profiles-ok manifests declared.profiles v2,
      )
