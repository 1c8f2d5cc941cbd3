-- ===== src/Flash/Storage/Protocol/Notices.antt =====
-- The recovery of notifications follows the protocol.
use long_haul.Prelude.{
  ◌≡◌, refl, sym, ap, ◌∙◌, true, false, not, Option, none, some, List, [], ◌∷◌, arith, is_some,
  Text,
}
use mathlib.Core.Path.{subst}
use long_haul.Prelude.Results.{ok}
use long_haul.Flash.Exec.{pure, raise}
use long_haul.Flash.Exec.Rules
use long_haul.Flash.Exec.Rules.{IsPreorder, Holds}
use long_haul.Flash.Storage.{JobState, Content, job, Services, Adapter}
use long_haul.Flash.Storage.Blobs.{job_name}
use long_haul.Flash.Storage.Protocol.{Evolves, stays, notifies, job_in, View, job_at, IsDocumented}
use long_haul.Flash.Storage.{FlashStorageOptions, NotificationCursor, cursor}
use long_haul.Flash.Storage.Blobs.{
  decode_cursor, cursor_name, create_cursor, read_notification_cursor, write_notification_cursor,
}
use long_haul.Flash.Storage.Notices.{
  notified, mark_notified, notify, notify_accepted, notify_job, notify_page, advance,
  recover_notifications, ends_with_json, job_id_of,
}
use long_haul.Flash.Storage.Protocol.Rules.{
  Later, Later-IsPreorder, call_bind, Downloaded, download-Holds, upload_new-Holds,
  unless_lease_error-Holds, Kept, bind-Kept, forget, pure-Kept,
}
use long_haul.Flash.Storage.Protocol.ReadWrite.{
  HasRead, read-Holds, write-Holds, conditional_upload-Holds,
}

module _ {World Etag Handle Json : Type 0} (given : Services World Etag Handle Json)
    (view : View World Etag) (documented : IsDocumented given view)
    (options : FlashStorageOptions) where
  notify-Kept :
      (s : Adapter World Handle) (job_id attempt result : Text)
      → Kept given view documented (notify given options job_id attempt result) s
  unfolding notify
  notify-Kept s job_id attempt result =
      Rules.catch-Holds (Later-IsPreorder given view documented) s
        (call_bind given view documented s _
          (documented.notifier_quiet job_id attempt (given.loads result))
          λ _ t later came. pure-Kept given view documented t true)
        λ e t later failed. pure-Kept given view documented t false

  mark_notified-Kept :
      (s : Adapter World Handle) (job_id : Text) (state : JobState) (e : Etag)
      → view.version (job_name job_id) e ≡ job state
      → state.job_id ≡ job_id
      → is_some state.accepted_result_json ≡ true
      → Kept given view documented (mark_notified given options state e) s
  unfolding mark_notified
  mark_notified-Kept s job_id state e version own accepted =
      Rules.catch-Holds (Later-IsPreorder given view documented) s
        (unless_lease_error-Holds given view documented s _ tt
          (forget given view documented s (
            write-Holds given view documented s job_id state (notified state) e version own
              (notifies accepted) refl))
          (λ t. tt))
        λ e' t later failed.
          Rules.choose-Holds (Later-IsPreorder given view documented) t _ (pure tt) (raise e')
            (λ _. pure-Kept given view documented t tt)
            (λ _. Rules.raise-Holds (Later-IsPreorder given view documented) t e')

  notify_accepted-Kept :
      (s : Adapter World Handle) (job_id : Text) (state : JobState) (e : Etag)
      (attempt result : Option Text)
      → view.version (job_name job_id) e ≡ job state
      → state.job_id ≡ job_id
      → state.accepted_result_json ≡ result
      → Kept given view documented (notify_accepted given options state e job_id attempt result) s
  notify_accepted-Kept s job_id state e (some attempt) (some result) version own accepted =
      bind-Kept given view documented s (notify-Kept s job_id attempt result) λ sent t later.
        Rules.choose-Holds (Later-IsPreorder given view documented) t sent
          (mark_notified given options state e) (pure tt)
          (λ _. mark_notified-Kept t job_id state e version own (rw accepted refl))
          (λ _. pure-Kept given view documented t tt)
  notify_accepted-Kept s job_id state e (some attempt) none version own accepted =
      pure-Kept given view documented s tt
  notify_accepted-Kept s job_id state e none result version own accepted =
      pure-Kept given view documented s tt

  notify_job-Kept :
      (s : Adapter World Handle) (job_id : Text)
      → Kept given view documented (notify_job given options job_id) s
  unfolding notify_job
  notify_job-Kept s job_id =
      Rules.bind-Holds (Later-IsPreorder given view documented)
        {P = HasRead given view documented job_id} s (read-Holds given view documented s job_id)
        λ found t later has.
          Rules.choose-Holds (Later-IsPreorder given view documented) t _ (pure tt) _
            (λ _. pure-Kept given view documented t tt)
            (λ _.
              notify_accepted-Kept t job_id found.0 found.1 found.0.accepted_attempt_id
                found.0.accepted_result_json has.version has.own refl)

  notify_page-Kept :
      (s : Adapter World Handle) (names : List Text)
      → Kept given view documented (notify_page given options names) s
  unfolding notify_page
  notify_page-Kept s [] = pure-Kept given view documented s tt
  notify_page-Kept s (name ∷ names) =
      bind-Kept given view documented s
        (Rules.choose-Holds (Later-IsPreorder given view documented) s (not (ends_with_json name))
          (pure tt) (notify_job given options (job_id_of name))
          (λ _. pure-Kept given view documented s tt) (λ _. notify_job-Kept s (job_id_of name)))
        λ _ t later. notify_page-Kept t names

  -- No job is stored under the cursor's name when a cursor is.
  no_job :
      (u : World) (e : Etag) (c c' : NotificationCursor)
      → view.version cursor_name e ≡ cursor c
      → view.blob u cursor_name ≡ some (view.version cursor_name e)
      → Evolves given.validate_contract
          (job_at given view u cursor_name)
          (job_in (some (cursor c')))
  no_job u e c c' version there =
      subst (λ o. Evolves given.validate_contract (job_in o) none) (sym (there ∙ ap some version))
        stays

  write_cursor-Kept :
      (s : Adapter World Handle) (c c' : NotificationCursor) (e : Etag)
      → view.version cursor_name e ≡ cursor c
      → Kept given view documented (write_notification_cursor given c' e) s
  unfolding write_notification_cursor
  write_cursor-Kept s c c' e version =
      unless_lease_error-Holds given view documented s _ tt
        (forget given view documented s (
          conditional_upload-Holds given view documented s cursor_name (cursor c') e
            (λ u there. no_job u e c c' version there)))
        (λ t. tt)

  decode_cursor-ok : (x : Content) (c : NotificationCursor) → decode_cursor x ≡ ok c → x ≡ cursor c
  decode_cursor-ok (cursor d) c h = ground arith
  decode_cursor-ok _ c h = absurd (ground arith)

  create_cursor-Holds :
      (s : Adapter World Handle)
      → Holds
          (Later given view documented)
          (create_cursor given)
          s
          (Downloaded given view documented cursor_name)
  unfolding create_cursor
  create_cursor-Holds s =
      bind-Kept given view documented s
        (Rules.catch-Holds (Later-IsPreorder given view documented) s
          (forget given view documented s (
            upload_new-Holds given view documented s cursor_name _ (λ u absent.
              subst (λ o. Evolves given.validate_contract (job_in o) none) (sym absent) stays)))
          λ e t later failed.
            Rules.choose-Holds (Later-IsPreorder given view documented) t _ (pure tt) (raise e)
              (λ _. pure-Kept given view documented t tt)
              (λ _. Rules.raise-Holds (Later-IsPreorder given view documented) t e))
        λ _ t later. download-Holds given view documented t cursor_name

  read_cursor-Holds :
      (s : Adapter World Handle)
      → Holds
          (Later given view documented)
          (read_notification_cursor given)
          s
          (λ found _. view.version cursor_name found.1 ≡ cursor found.0)
  unfolding read_notification_cursor
  read_cursor-Holds s =
      Rules.bind-Holds (Later-IsPreorder given view documented)
        {P = Downloaded given view documented cursor_name} s
        (Rules.catch-Holds (Later-IsPreorder given view documented) s
          (download-Holds given view documented s cursor_name)
          λ e t later failed.
            Rules.choose-Holds (Later-IsPreorder given view documented) t _ (create_cursor given)
              (raise e) (λ _. create_cursor-Holds t)
              (λ _. Rules.raise-Holds (Later-IsPreorder given view documented) t e))
        λ downloaded t later came.
          Rules.lift_bind (Later-IsPreorder given view documented) t (decode_cursor downloaded.0)
            λ found decoded.
              Rules.guard_bind (Later-IsPreorder given view documented) t _ _ λ current.
                Rules.pure-Holds (Later-IsPreorder given view documented) t _
                  (came.version ∙ decode_cursor-ok downloaded.0 found decoded)

  advance-Kept :
      (s : Adapter World Handle) (c : NotificationCursor) (e : Etag)
      (page : Option (List Text × Option Text))
      → view.version cursor_name e ≡ cursor c
      → Kept given view documented (advance given options c e page) s
  advance-Kept s c e none version = write_cursor-Kept s c _ e version
  advance-Kept s c e (some (names, token)) version =
      bind-Kept given view documented s (notify_page-Kept s names)
        λ _ t later. write_cursor-Kept t c _ e version

  pub recover_notifications-Kept :
      (s : Adapter World Handle)
      → Kept given view documented (recover_notifications given options) s
  unfolding recover_notifications
  recover_notifications-Kept s =
      Rules.bind-Holds (Later-IsPreorder given view documented)
        {P = λ found _. view.version cursor_name found.1 ≡ cursor found.0} s (read_cursor-Holds s)
        λ found t later version.
          call_bind given view documented t _ (documented.list_quiet _ _ _)
            λ page u after came. advance-Kept u found.0 found.1 page version
