-- ===== src/Flash/Storage/Notices.antt =====
-- recover_notifications: one page of jobs, each pending acceptance notified and marked.
use long_haul.Prelude.{
  ◌-◌, Bool, true, false, not, ◌||◌, Option, none, some, List, [], ◌∷◌, length, take, last_items,
  Text, codes, ◌==◌,
}
use long_haul.Flash.Exec.{pure, raise, catch, choose, ◌>>=◌, ◌>>◌}
use long_haul.Flash.Storage.{
  FlashStorageOptions, JobState, NotificationCursor, Services, call, status_in,
}
use long_haul.Prelude.Strings.{split_on}
use long_haul.Prelude.{last_items}
use long_haul.Flash.Storage.Blobs.{
  M, job_prefix, read, write, read_notification_cursor, write_notification_cursor,
  unless_lease_error,
}

-- name.endswith(".json")
unfoldable pub ends_with_json : Text → Bool
ends_with_json name = last_items 5 name == codes ".json"

unfoldable last_of : Text → List Text → Text
last_of found [] = found
last_of found (piece ∷ pieces) = last_of piece pieces

-- the last item of name.rsplit("/", 1)
unfoldable pub last_segment : Text → Text
unfolding split_on last_of
last_segment name = last_of [] (split_on b'/' name)

-- last_segment(name)[:-5]
unfoldable pub job_id_of : Text → Text
unfolding last_segment
job_id_of name = let segment = last_segment name in take (length segment - 5) segment

abbrev pub notified : JobState → JobState
notified state = record state { notification_pending = false; notification_sent = true }

module _ {World Etag Handle Json : Type 0} (given : Services World Etag Handle Json)
    (options : FlashStorageOptions) where
  -- The else branch: the record is marked, unless another worker has changed it.
  unfoldable pub mark_notified : JobState → Etag → M given (Unit {0})
  unfolding write unless_lease_error status_in
  mark_notified state etag =
      catch (unless_lease_error given (write given (notified state) etag) tt)
        (λ e. choose (status_in (409 ∷ 412 ∷ []) e) (pure tt) (raise e))

  -- Whether the notifier returned; its exception is logged.
  unfoldable pub notify : Text → Text → Text → M given Bool
  notify job_id attempt result =
      catch (call (given.notifier job_id attempt (given.loads result)) >> pure true)
        (λ e. pure false)

  abbrev pub notify_accepted :
      JobState → Etag → Text → Option Text → Option Text → M given (Unit {0})
  notify_accepted state etag job_id (some attempt) (some result) = do
    sent ← notify job_id attempt result
    choose sent (mark_notified state etag) (pure tt)
  notify_accepted state etag job_id _ _ = pure tt

  -- The body of the loop for a job.
  unfoldable pub notify_job : Text → M given (Unit {0})
  unfolding read notify mark_notified
  notify_job job_id = do
    found ← read given job_id
    choose (not found.0.notification_pending || found.0.notification_sent) (pure tt) (
        notify_accepted found.0 found.1 job_id found.0.accepted_attempt_id
          found.0.accepted_result_json)

  unfoldable pub notify_page : List Text → M given (Unit {0})
  unfolding ends_with_json job_id_of notify_job
  notify_page [] = pure tt
  notify_page (name ∷ names) = do
    choose (not (ends_with_json name)) (pure tt) (notify_job (job_id_of name))
    notify_page names

  abbrev pub advance :
      NotificationCursor → Etag → Option (List Text × Option Text) → M given (Unit {0})
  advance c etag none =
      write_notification_cursor given (record c { continuation_token = none }) etag
  advance c etag (some (names, token)) = do
    notify_page names
    write_notification_cursor given (record c { continuation_token = token }) etag

  unfoldable pub recover_notifications : M given (Unit {0})
  unfolding read_notification_cursor write_notification_cursor notify_page
  recover_notifications = do
    found ← read_notification_cursor given
    page ← call (given.list_page job_prefix options.recovery_scan_limit found.0.continuation_token)
    advance found.0 found.1 page
