-- ===== src/Flash/Storage/Blobs.antt =====
-- The conditional state of a job, the claim index and the notification cursor: _blob_name, _read,
-- _write, _conditional_upload, _write_claim_index, _find_accepted_claim and the cursor's methods.
use long_haul.Prelude.{
  ℕ, Bool, true, false, not, ◌&&◌, ◌||◌, Option, none, some, [], ◌∷◌, ◌++◌, leb, nat_eq,
  if◌then◌else◌, any, Text, codes, ◌==◌,
}
use long_haul.Prelude.Results.{Fault, Result, ok, err, value_error, lease_error}
use long_haul.Flash.Clock.{Exec}
use long_haul.Flash.Exec.{pure, lift, raise, catch, choose, raise_when, ◌>>=◌, ◌>>◌}
use long_haul.Flash.Storage.{
  JobState, ClaimIndex, NotificationCursor, Content, job, claim_index, cursor, Services, Adapter,
  call, state_version, same_index, status_in,
}

abbrev in_range : ℕ → ℕ → ℕ → Bool
in_range low high c = leb low c && leb c high

-- The characters of a path-safe identifier.
unfoldable pub is_safe : ℕ → Bool
is_safe c =
    in_range b'a' b'z' c
    || in_range b'A' b'Z' c
    || in_range b'0' b'9' c
    || nat_eq c b'-'
    || nat_eq c b'_'

abbrev pub job_prefix : Text
job_prefix = codes "flash-jobs/v1/"

-- f"flash-jobs/v1/{job_id}.json"
unfoldable pub job_name : Text → Text
job_name job_id = job_prefix ++ (job_id ++ codes ".json")

-- _blob_name
unfoldable pub blob_name : Text → Result Text
unfolding is_safe job_name
blob_name job_id =
    if (job_id == []) || any (λ c. not (is_safe c)) job_id
    then err value_error
    else ok (job_name job_id)

-- _claim_index_name
unfoldable pub claim_index_name : Text → Text
claim_index_name claim_hash = codes "flash-claim-index/v1/" ++ (claim_hash ++ codes ".json")

abbrev pub cursor_name : Text
cursor_name = codes "flash-meta/v1/notification-cursor.json"

-- model_validate_json of the three models
abbrev pub decode_job : Content → Result JobState
decode_job (job state) = ok state
decode_job _ = err value_error

abbrev pub decode_index : Content → Result ClaimIndex
decode_index (claim_index index) = ok index
decode_index _ = err value_error

abbrev pub decode_cursor : Content → Result NotificationCursor
decode_cursor (cursor c) = ok c
decode_cursor _ = err value_error

module _ {World Etag Handle Json : Type 0} (given : Services World Etag Handle Json) where
  abbrev pub M : Type 0 → Type 0
  M A = Exec (Adapter World Handle) A

  -- _read
  unfoldable pub read : Text → M (JobState × Etag)
  unfolding blob_name
  read job_id = do
    name ← lift (blob_name job_id)
    downloaded ← call (given.download name)
    state ← lift (decode_job downloaded.0)
    raise_when (not (nat_eq state.schema_version state_version)) value_error
    raise_when (not (state.job_id == job_id)) value_error
    pure (state, downloaded.1)

  -- _conditional_upload
  unfoldable pub conditional_upload : Text → Content → Etag → M (Unit {0})
  conditional_upload name payload etag =
      catch (call (given.upload_matching name payload etag))
        (λ e. choose (status_in (412 ∷ []) e) (raise lease_error) (raise e))

  -- _write
  unfoldable pub write : JobState → Etag → M (Unit {0})
  unfolding blob_name conditional_upload
  write state etag = do
    name ← lift (blob_name state.job_id)
    conditional_upload name (job state) etag

  -- _write_claim_index
  unfoldable pub write_claim_index : ClaimIndex → M (Unit {0})
  unfolding claim_index_name same_index status_in
  write_claim_index index =
      catch (call (given.upload_new (claim_index_name index.claim_hash) (claim_index index))) λ e.
        choose (not (status_in (409 ∷ 412 ∷ []) e)) (raise e) (do
          downloaded ← call (given.download (claim_index_name index.claim_hash))
          existing ← lift (decode_index downloaded.0)
          raise_when (not (same_index existing index)) lease_error)

  abbrev pub is_text : Option Text → Text → Bool
  is_text none a = false
  is_text (some b) a = b == a

  abbrev pub is_number : Option ℕ → ℕ → Bool
  is_number none n = false
  is_number (some m) n = nat_eq m n

  -- The job's state records the index's claim as the accepted one.
  abbrev pub matches_index : JobState → ClaimIndex → Text → Bool
  matches_index state index token_hash =
      is_text state.accepted_claim_hash token_hash
      && is_number state.accepted_generation index.generation
      && is_text state.accepted_attempt_id index.attempt_id

  -- The rest of _find_accepted_claim after the index blob was found.
  unfoldable pub find_indexed : Text → Option Content → M (Option JobState)
  unfolding read
  find_indexed token_hash none = pure none
  find_indexed token_hash (some content) = do
    index ← lift (decode_index content)
    choose (not (index.claim_hash == token_hash) || not (nat_eq index.schema_version state_version))
        (pure none)
        (do
          found ← read index.job_id
          pure (if matches_index found.0 index token_hash then some found.0 else none))

  -- _find_accepted_claim
  unfoldable pub find_accepted_claim : Text → M (Option JobState)
  unfolding claim_index_name find_indexed status_in
  find_accepted_claim token = do
    content ←
        catch
          (do
            downloaded ← call (given.download (claim_index_name (given.token_hash token)))
            pure (some downloaded.0))
          (λ e. choose (status_in (404 ∷ []) e) (pure none) (raise e))
    find_indexed (given.token_hash token) content

  -- The creation of the cursor's blob, when there is none.
  unfoldable pub create_cursor : M (Content × Etag)
  unfolding status_in
  create_cursor = do
    catch
        (call (
          given.upload_new cursor_name
            (cursor (record { schema_version = state_version; continuation_token = none }))))
        (λ e. choose (status_in (409 ∷ 412 ∷ []) e) (pure tt) (raise e))
    call (given.download cursor_name)

  -- _read_notification_cursor
  unfoldable pub read_notification_cursor : M (NotificationCursor × Etag)
  unfolding create_cursor status_in
  read_notification_cursor = do
    downloaded ←
        catch (call (given.download cursor_name))
          (λ e. choose (status_in (404 ∷ []) e) create_cursor (raise e))
    found ← lift (decode_cursor downloaded.0)
    raise_when (not (nat_eq found.schema_version state_version)) value_error
    pure (found, downloaded.1)

  abbrev is_lease_error : Fault → Bool
  is_lease_error lease_error = true
  is_lease_error _ = false

  -- try: …, except LeaseError: return
  unfoldable pub unless_lease_error : {A : Type 0} → M A → A → M A
  unless_lease_error m a = catch m (λ e. choose (is_lease_error e) (pure a) (raise e))

  -- _write_notification_cursor
  unfoldable pub write_notification_cursor : NotificationCursor → Etag → M (Unit {0})
  unfolding conditional_upload unless_lease_error
  write_notification_cursor c etag =
      unless_lease_error (conditional_upload cursor_name (cursor c) etag) tt
