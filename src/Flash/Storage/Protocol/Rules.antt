-- ===== src/Flash/Storage/Protocol/Rules.antt =====
-- What a call of a service does to the jobs' states.
use long_haul.Prelude.{◌≡◌, ap, none, some, arith, Text}
use mathlib.Core.Path.{subst}
use long_haul.Prelude.Results.{ok}
use long_haul.Flash.Clock.{Exec}
use long_haul.Flash.Exec.{pure, raise, ◌>>=◌}
use long_haul.Flash.Exec.Rules
use long_haul.Flash.Exec.Rules.{IsPreorder, Holds}
use long_haul.Flash.Storage.{JobState, Content, job, Services, Adapter, call}
use long_haul.Prelude.Dict.{Dict}
use long_haul.Flash.Storage.{ClaimContext}
use long_haul.Flash.Storage.Protocol.Keyed.{IsKeyed}
use long_haul.Flash.Storage.Blobs.{M, decode_job, unless_lease_error}
use long_haul.Flash.Storage.Protocol.{Evolves, job_in, View, job_at, Follows, IsDocumented}
use long_haul.Flash.Storage.Protocol.Writes.{
  Follows-refl, Follows-trans, MayWrite-Follows, MayWrite-stored,
}

module _ {World Etag Handle Json : Type 0} (given : Services World Etag Handle Json)
    (view : View World Etag) (documented : IsDocumented given view) where
  -- The adapter's state may be followed by one whose world follows.
  pub record Later (s t : Adapter World Handle) : Type 0 where
    pub world : Follows given view s.world t.world
    pub keyed : IsKeyed s.claims → IsKeyed t.claims

  pub Later-IsPreorder : IsPreorder Later
  Later-IsPreorder = record {
    stay = λ s. record { world = Follows-refl s.world; keyed = λ k. k };
    follow = λ s t u h k. record {
      world = Follows-trans s.world t.world u.world h.world k.world;
      keyed = λ x. k.keyed (h.keyed x);
    };
  }

  -- What the process keeps for itself is not in the world.
  pub modify-Later :
      (s : Adapter World Handle) (claims : Dict (ClaimContext Handle))
      → (IsKeyed s.claims → IsKeyed claims)
      → Later s (record s { claims = claims })
  modify-Later s claims keyed = record { world = Follows-refl s.world; keyed = keyed }

  pub call-Holds :
      {A : Type 0} {Q : A → Adapter World Handle → Type 0} (s : Adapter World Handle)
      (m : Exec World A)
      → ((w : World) → Follows given view w (m w).1)
      → ((a : A) → (m s.world).0 ≡ ok a → Q a (record s { world = (m s.world).1 }))
      → Holds Later (call m) s Q
  unfolding call
  call-Holds s m quiet q = record {
    keeps = record { world = quiet s.world; keyed = λ k. k };
    ensures = q;
  }

  pub decode_job-ok : (c : Content) (s : JobState) → decode_job c ≡ ok s → c ≡ job s
  decode_job-ok (job t) s h = ground arith
  decode_job-ok _ s h = absurd (ground arith)

  pub record Downloaded (name : Text) (downloaded : Content × Etag) (t : Adapter World Handle)
      : Type 0 where
    pub version : view.version name downloaded.1 ≡ downloaded.0
    pub since :
        Evolves given.validate_contract
          (job_in (some downloaded.0))
          (job_at given view t.world name)

  call-Downloaded :
      (name : Text) (s : Adapter World Handle) (downloaded : Content × Etag)
      → (given.download name s.world).0 ≡ ok downloaded
      → Downloaded name downloaded (record s { world = (given.download name s.world).1 })
  call-Downloaded name s downloaded came =
      let (version, found) = documented.download_law name s.world downloaded.0 downloaded.1 came in
      record {
        version = version;
        since =
            subst
              (λ o.
                Evolves given.validate_contract o
                  (job_at given view (given.download name s.world).1 name))
              (ap job_in found.there) (found.end.job name);
      }

  pub call_bind :
      {A B : Type 0} {Q : B → Adapter World Handle → Type 0} {f : A → Exec (Adapter World Handle) B}
      (s : Adapter World Handle) (m : Exec World A)
      → ((w : World) → Follows given view w (m w).1)
      → ((a : A) (t : Adapter World Handle)
          → Later s t
          → (m s.world).0 ≡ ok a
          → Holds Later (f a) t Q)
      → Holds Later (call m >>= f) s Q
  call_bind {A} s m quiet next =
      Rules.bind-Holds Later-IsPreorder {P = λ a t. (m s.world).0 ≡ ok a} s
        (call-Holds s m quiet (λ a e. e)) next

  pub download-Holds :
      (s : Adapter World Handle) (name : Text)
      → Holds Later (call (given.download name)) s (Downloaded name)
  download-Holds s name =
      call-Holds s (given.download name) (documented.download_quiet name)
        (λ downloaded came. call-Downloaded name s downloaded came)

  -- A blob that is created where there was none.
  pub upload_new-Holds :
      (s : Adapter World Handle) (name : Text) (content : Content)
      → ((u : World)
          → view.blob u name ≡ none
          → Evolves given.validate_contract (job_at given view u name) (job_in (some content)))
      → Holds Later (call (given.upload_new name content)) s (λ _ t.
        Evolves given.validate_contract (job_in (some content)) (job_at given view t.world name))
  upload_new-Holds s name content step =
      call-Holds s (given.upload_new name content)
        (λ w.
          MayWrite-Follows name content (given.upload_new name content) w step
            (documented.upload_new_law name content w))
        (λ _ returned.
          MayWrite-stored name content (given.upload_new name content) s.world returned
            (documented.upload_new_law name content s.world))

  pub unless_lease_error-Holds :
      {A : Type 0} {Q : A → Adapter World Handle → Type 0} (s : Adapter World Handle)
      (m : M given A) (a : A)
      → Holds Later m s Q
      → ((t : Adapter World Handle) → Q a t)
      → Holds Later (unless_lease_error given m a) s Q
  unfolding unless_lease_error
  unless_lease_error-Holds s m a h q = Rules.catch-Holds Later-IsPreorder s h λ e t later failed.
      Rules.choose-Holds Later-IsPreorder t _ (pure a) (raise e)
        (λ _. Rules.pure-Holds Later-IsPreorder t a (q t))
        (λ _. Rules.raise-Holds Later-IsPreorder t e)

  -- An action of which only the effect on the jobs matters.
  abbrev pub Kept : {A : Type 0} → M given A → Adapter World Handle → Type 0
  Kept m s = Holds Later m s (λ _ _. Unit {0})

  pub bind-Kept :
      {A B : Type 0} {Q : B → Adapter World Handle → Type 0} {m : M given A}
      {f : A → Exec (Adapter World Handle) B} (s : Adapter World Handle)
      → Kept m s
      → ((a : A) (t : Adapter World Handle) → Later s t → Holds Later (f a) t Q)
      → Holds Later (m >>= f) s Q
  bind-Kept s h next =
      Rules.bind-Holds Later-IsPreorder {P = λ _ _. Unit {0}} s h (λ a t later _. next a t later)

  pub forget :
      {A : Type 0} {Q : A → Adapter World Handle → Type 0} {m : M given A}
      (s : Adapter World Handle)
      → Holds Later m s Q
      → Kept m s
  forget s h = record { keeps = h.keeps; ensures = λ a e. tt }

  pub call-Kept :
      {A : Type 0} (s : Adapter World Handle) (m : Exec World A)
      → ((w : World) → Follows given view w (m w).1)
      → Kept (call m) s
  call-Kept s m quiet = call-Holds s m quiet (λ a e. tt)

  pub pure-Kept : {A : Type 0} (s : Adapter World Handle) (a : A) → Kept (pure a) s
  pure-Kept s a = Rules.pure-Holds Later-IsPreorder s a tt
