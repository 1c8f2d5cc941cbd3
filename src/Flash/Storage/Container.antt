-- ===== src/Flash/Storage/Container.antt =====
-- A container and a queue in memory, with one process at work, which behave as documented.
use long_haul.Prelude.{
  ℕ, ◌≡◌, refl, ap, ◌∙◌, inl, inr, true, Option, none, some, List, [], ◌∷◌, ◌++◌, arith, select,
  Text, codes, ==_refl, eq_iff,
}
use long_haul.Prelude.Results.{ok, err, service_error}
use long_haul.Prelude.Dict.{Dict, get, put, get-put, keys}
use native.Mathlib.Decide.{ℕ_discrete}
use long_haul.Prelude.Strings.{starts_with}
use long_haul.Work.Contracts.{WorkContract}
use long_haul.Flash.Clock.{Exec}
use long_haul.Flash.Storage.{FlashStorageOptions, Content, Services, Message}
use long_haul.Flash.Storage.Protocol.{View, IsDocumented, Follows, Wrote, MayWrite, Found, stays}

unfoldable pub Content-discrete : Discrete Content
Content-discrete = hlevel (ℕ_discrete)

pub record Container : Type 0 where
  pub blobs : Dict Content
  pub now : ℕ
  pub messages : List (Message (Unit {0}))

abbrev pub contract : WorkContract
contract = record {
  contract_id = codes "c";
  mission_id = codes "m";
  objective = codes "o";
  context = [];
  execution_plan_id = none;
  allowed_paths = [];
  forbidden_paths = [];
  capabilities = [];
  authority_scopes = [];
  budget = record {
    wall_seconds = 100;
    max_attempts = 2;
    max_tokens_per_attempt = none;
    max_no_progress_steps = none;
  };
  success_predicates = [];
  failure_predicates = [];
  flash_execution = none;
}

abbrev pub token : Text
token = codes "0123456789abcdef0123456789abcdef"

abbrev pub stored : Container → Text → Content → Container
stored w name c = record w { blobs = put w.blobs name c }

abbrev downloaded : Option Content → Exec Container (Content × Content)
downloaded none w = (err (service_error 404), w)
downloaded (some c) w = (ok (c, c), w)

unfoldable pub download : Text → Exec Container (Content × Content)
unfolding get
download name w = downloaded (get w.blobs name) w

abbrev created : Text → Content → Option Content → Exec Container (Unit {0})
created name c none w = (ok tt, stored w name c)
created name c (some x) w = (err (service_error 409), w)

unfoldable pub upload_new : Text → Content → Exec Container (Unit {0})
unfolding get put
upload_new name c w = created name c (get w.blobs name) w

abbrev swapped : {P : Type 0} → Text → Content → Dec P → Exec Container (Unit {0})
swapped name c (yes same) w = (ok tt, stored w name c)
swapped name c (no other) w = (err (service_error 412), w)

abbrev replaced : Text → Content → Content → Option Content → Exec Container (Unit {0})
replaced name c e none w = (err (service_error 412), w)
replaced name c e (some x) w = swapped name c (Content-discrete x e) w

unfoldable pub upload_matching : Text → Content → Content → Exec Container (Unit {0})
unfolding get put
upload_matching name c e w = replaced name c e (get w.blobs name) w

abbrev pub first : List (Message (Unit {0})) → Option (Message (Unit {0}))
first [] = none
first (m ∷ ms) = some m

abbrev pub services : Services Container Content (Unit {0}) Text
services = record {
  clock = λ w. (ok w.now, w);
  download = download;
  upload_new = upload_new;
  upload_matching = upload_matching;
  list_page =
      λ prefix n cursor_token w. (ok (some (select (starts_with prefix) (keys w.blobs), none)), w);
  send_message = λ body w. (
    ok tt,
    record w {
      messages =
          w.messages ++ record { handle = tt; body = body; pop_receipt = some (codes "r") } ∷ [];
    },
  );
  receive_message = λ n w. (ok (first w.messages), w);
  update_message = λ m receipt n w. (ok (some (codes "r")), w);
  delete_message = λ m receipt w. (ok tt, record w { messages = [] });
  token_factory = λ w. (ok token, w);
  verifier = λ c x w. (ok true, w);
  notifier = λ job_id attempt x w. (ok tt, w);
  dumps = λ x. some x;
  loads = λ x. x;
  dump_contract = λ c. codes "c";
  validate_contract = λ text. ok contract;
  token_hash = λ t. t;
  decimal = λ n. codes "1";
}

abbrev options : FlashStorageOptions
options = record {
  lease_seconds = 10;
  recovery_scan_limit = 4;
  accepted_trigger_drain_limit = 2;
  max_local_claims = 2;
}

abbrev pub view : View Container Content
view = record { blob = λ w name. get w.blobs name; version = λ name e. e }

Follows-refl : (w : Container) → Follows services view w w
Follows-refl w = record { job = λ name. stays }

downloaded-quiet : (w : Container) (o : Option Content) → Follows services view w (downloaded o w).1
downloaded-quiet w none = Follows-refl w
downloaded-quiet w (some c) = Follows-refl w

downloaded_lem :
    (name : Text) (w : Container) (c e : Content) (o : Option Content)
    → get w.blobs name ≡ o
    → (downloaded o w).0 ≡ ok (c, e)
    → (e ≡ c) × Found services view name c w (downloaded o w).1
downloaded_lem name w c e none there h = absurd (ground arith)
downloaded_lem name w c e (some x) there h =
    let same : x ≡ c = ground arith in
    (
      ground arith,
      record { at = w; start = Follows-refl w; there = there ∙ ap some same; end = Follows-refl w },
    )

-- A write to a container that nobody else writes to.
wrote :
    (before : Container → Type 0) (name : Text) (c : Content) (w : Container)
    → before w
    → Wrote services view before name c w (stored w name c)
wrote before name c w h = record {
  at = w;
  after = stored w name c;
  start = Follows-refl w;
  replaced = h;
  written = ground (arith, get-put w.blobs name name c, ==_refl name);
  others = λ other different.
      ground (arith, get-put w.blobs name other c, eq_iff name other, eq_iff other name);
  end = Follows-refl (stored w name c);
}

created_lem :
    (name : Text) (c : Content) (w : Container) (o : Option Content)
    → get w.blobs name ≡ o
    → MayWrite services view (λ v. get v.blobs name ≡ none) name c (created name c o) w
created_lem name c w none absent = inl (wrote (λ v. get v.blobs name ≡ none) name c w absent)
created_lem name c w (some x) there = inr (Follows-refl w, refl)

swapped_lem :
    (name : Text) (c e x : Content) (w : Container)
    → get w.blobs name ≡ some x
    → (d : Dec (x ≡ e))
    → MayWrite services view (λ v. get v.blobs name ≡ some e) name c (swapped name c d) w
swapped_lem name c e x w there (yes same) =
    inl (wrote (λ v. get v.blobs name ≡ some e) name c w (there ∙ ap some same))
swapped_lem name c e x w there (no other) = inr (Follows-refl w, refl)

replaced_lem :
    (name : Text) (c e : Content) (w : Container) (o : Option Content)
    → get w.blobs name ≡ o
    → MayWrite services view (λ v. get v.blobs name ≡ some e) name c (replaced name c e o) w
replaced_lem name c e w none absent = inr (Follows-refl w, refl)
replaced_lem name c e w (some x) there = swapped_lem name c e x w there (Content-discrete x e)

pub documented : IsDocumented services view
unfolding download upload_new upload_matching
documented = record {
  download_law = λ name w c e. downloaded_lem name w c e (get w.blobs name) refl;
  upload_new_law = λ name c w. created_lem name c w (get w.blobs name) refl;
  upload_matching_law = λ name c e w. replaced_lem name c e w (get w.blobs name) refl;
  clock_quiet = Follows-refl;
  download_quiet = λ name w. downloaded-quiet w (get w.blobs name);
  list_quiet = λ prefix n t. Follows-refl;
  send_quiet = λ b w. record { job = λ name. stays };
  receive_quiet = λ n. Follows-refl;
  update_quiet = λ m receipt n. Follows-refl;
  delete_quiet = λ m receipt w. record { job = λ name. stays };
  token_quiet = Follows-refl;
  verifier_quiet = λ d x. Follows-refl;
  notifier_quiet = λ job_id attempt x. Follows-refl;
}
