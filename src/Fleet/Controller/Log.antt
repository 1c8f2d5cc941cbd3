-- ===== src/Fleet/Controller/Log.antt =====
-- A log whose events were each written as one line reads back, and replays event by event.
use long_haul.Prelude.{
  ◌≡◌, refl, sym, ap, ◌∙◌, inl, inr, Bool, true, false, List, [], ◌∷◌, ◌++◌, arith, any, All, Text,
}
use long_haul.Prelude.Results.{ok, ◌>>=◌, Result-cases}
use long_haul.Prelude.Strings.{split_lines, is_line_break, strip, add_first}
use mathlib.Core.List.{append_assoc}
use long_haul.Fleet.Events.{Event, FleetState}
use long_haul.Fleet.Replay.{materialize, replay, apply_event, initial}
use long_haul.Fleet.Controller.{
  Codec, EventStore, has_content, parse_lines, read_events, written, export_events, state_of,
}

pub replay-append :
    (s : FleetState) (es fs : List Event) → replay s (es ++ fs) ≡ (replay s es >>= λ t. replay t fs)
unfolding replay
replay-append s [] fs = refl
replay-append s (e ∷ es) fs = elim (Result-cases (apply_event s e)) [
  | inl (t, ran) ↦ rw ran (replay-append t es fs)
  | inr (f, failed) ↦ rw failed refl
]

-- The event's JSON is one line, and the validator gives the event back.
pub record IsLine (codec : Codec) (e : Event) : Type 0 where
  pub one_line : any is_line_break (codec.dump e) ≡ false
  pub not_blank : has_content (codec.dump e) ≡ true
  pub reads_back : codec.parse (codec.dump e) ≡ ok e

any-false {ℓ} :
    {A : Type ℓ} (p : A → Bool) (x : A) (xs : List A)
    → any p (x ∷ xs) ≡ false
    → (p x ≡ false) × (any p xs ≡ false)
any-false p x xs h = ground arith

split_lines-line :
    (line rest : Text)
    → any is_line_break line ≡ false
    → split_lines (line ++ 10 ∷ rest) ≡ line ∷ split_lines rest
unfolding split_lines
split_lines-line [] rest h = refl
split_lines-line (c ∷ cs) rest h =
    let (here, later) = any-false is_line_break c cs h in
    rw here (ap (add_first c) (split_lines-line cs rest later))

module _ (codec : Codec) where
  pub read_events-export_events :
      (es : List Event) → All (IsLine codec) es → read_events codec (export_events codec es) ≡ ok es
  unfolding read_events export_events parse_lines split_lines strip
  read_events-export_events [] lines = refl
  read_events-export_events (e ∷ es) lines =
      rw (split_lines-line (codec.dump e) (export_events codec es) lines.0.one_line) (
        rw lines.0.not_blank
          (rw lines.0.reads_back (rw (read_events-export_events es lines.1) refl)))

  pub export_events-written :
      (es : List Event) (e : Event)
      → export_events codec (es ++ e ∷ []) ≡ written codec (export_events codec es) e
  unfolding export_events
  export_events-written [] e = refl
  export_events-written (d ∷ es) e =
      ap (λ (rest : Text). codec.dump d ++ 10 ∷ rest) (export_events-written es e)
      ∙ sym (append_assoc (codec.dump d) (10 ∷ export_events codec es) (codec.dump e ++ 10 ∷ []))

  -- A store is the text of events that replay to the state.
  pub record Logs (store : EventStore) (s : FleetState) : Type 0 where
    pub events : List Event
    pub text : store ≡ export_events codec events
    pub lines : All (IsLine codec) events
    pub replays : materialize events [] [] ≡ ok s

  pub Logs-state_of :
      (store : EventStore) (s : FleetState) → Logs store s → state_of codec store ≡ ok s
  unfolding state_of
  Logs-state_of store s h = rw h.text (rw (read_events-export_events h.events h.lines) h.replays)

  All-snoc :
      (es : List Event) (e : Event)
      → All (IsLine codec) es
      → IsLine codec e
      → All (IsLine codec) (es ++ e ∷ [])
  All-snoc [] e lines line = (line, tt)
  All-snoc (d ∷ es) e lines line = (lines.0, All-snoc es e lines.1 line)

  -- Another line continues the replay.
  pub Logs-written :
      (store : EventStore) (s t : FleetState) (e : Event)
      → Logs store s
      → IsLine codec e
      → apply_event s e ≡ ok t
      → Logs (written codec store e) t
  unfolding materialize
  Logs-written store s t e h line ran = record {
    events = h.events ++ e ∷ [];
    text =
        ap (λ (text : Text). written codec text e) h.text ∙ sym (export_events-written h.events e);
    lines = All-snoc h.events e h.lines line;
    replays =
        replay-append (initial [] []) h.events (e ∷ [])
        ∙ rw h.replays (unfold replay in rw ran refl);
  }
