-- ===== src/Flash/Storage/Protocol/Lookup.antt =====
-- The claim index finds a job whose result is accepted for the claim.
use long_haul.Prelude.{
  ℕ, ◌≡◌, refl, ap, inl, inr, true, Option, none, some, arith, nat_eq_iff, Bool-cases, Text,
  eq_of_==,
}
use long_haul.Flash.Exec.{pure, raise}
use long_haul.Flash.Exec.Rules
use long_haul.Flash.Exec.Rules.{IsPreorder, Holds}
use long_haul.Flash.Storage.{JobState, Content, Services, Adapter}
use long_haul.Flash.Storage.Blobs.{job_name}
use long_haul.Flash.Storage.Protocol.{Evolves, View, job_at, IsDocumented}
use long_haul.Flash.Storage.{FlashStorageOptions}
use long_haul.Flash.Storage.Blobs.{
  claim_index_name, find_indexed, find_accepted_claim, matches_index, is_text, decode_index,
}
use long_haul.Flash.Storage.Holding.{holds_hash}
use long_haul.Flash.Storage.Completing.{holds_number, has_result}
use long_haul.Flash.Storage.Protocol.Rules.{
  Later, Later-IsPreorder, download-Holds, bind-Kept, forget, pure-Kept,
}
use long_haul.Flash.Storage.Protocol.ReadWrite.{HasRead, read-Holds}
use long_haul.Flash.Storage.Protocol.Accepted.{IsAccepted, IsAccepted-since}

module _ {World Etag Handle Json : Type 0} (given : Services World Etag Handle Json)
    (view : View World Etag) (documented : IsDocumented given view)
    (options : FlashStorageOptions) where
  -- The state that _find_accepted_claim returns is accepted for the token.
  pub FoundFor : Text → Option JobState → Adapter World Handle → Type 0
  FoundFor token none t = Unit
  FoundFor token (some state) t =
      (job_id : Text) × (generation : Option ℕ) × (state.accepted_claim_hash
        ≡ some (given.token_hash token))
      × (state.accepted_generation ≡ generation)
      × Evolves given.validate_contract (some state) (job_at given view t.world (job_name job_id))

  is_text-ok : (o : Option Text) (a : Text) → is_text given o a ≡ true → o ≡ some a
  is_text-ok none a h = absurd (ground arith)
  is_text-ok (some b) a h = ap some (eq_of_== b a h)

  find_indexed-Holds :
      (s : Adapter World Handle) (token : Text) (content : Option Content)
      → Holds
          (Later given view documented)
          (find_indexed given (given.token_hash token) content)
          s
          (FoundFor token)
  unfolding find_indexed FoundFor
  find_indexed-Holds s token none =
      Rules.pure-Holds (Later-IsPreorder given view documented) s none tt
  find_indexed-Holds s token (some content) =
      Rules.lift_bind (Later-IsPreorder given view documented) s (decode_index content)
        λ index decoded.
          Rules.choose-Holds (Later-IsPreorder given view documented) s _ (pure none) _
            (λ _. Rules.pure-Holds (Later-IsPreorder given view documented) s none tt)
            λ current.
              Rules.bind-Holds (Later-IsPreorder given view documented)
                {P = HasRead given view documented index.job_id} s
                (read-Holds given view documented s index.job_id)
                λ found t later has.
                  elim (Bool-cases (matches_index given found.0 index (given.token_hash token))) [
                    | inr other ↦
                        rw other
                          (Rules.pure-Holds (Later-IsPreorder given view documented) t none tt)
                    | inl matching ↦ rw matching (
                        Rules.pure-Holds (Later-IsPreorder given view documented) t (some found.0) (
                          index.job_id,
                          found.0.accepted_generation,
                          is_text-ok found.0.accepted_claim_hash (given.token_hash token)
                              (ground arith),
                          refl,
                          has.since,
                        ))
                  ]

  pub find_accepted-Holds :
      (s : Adapter World Handle) (token : Text)
      → Holds (Later given view documented) (find_accepted_claim given token) s (FoundFor token)
  unfolding find_accepted_claim
  find_accepted-Holds s token =
      bind-Kept given view documented s
        (Rules.catch-Holds (Later-IsPreorder given view documented) s
          (bind-Kept given view documented s
            (forget given view documented s
              (download-Holds given view documented s (claim_index_name (given.token_hash token))))
            λ downloaded t later. pure-Kept given view documented t (some downloaded.0))
          λ e t later failed.
            Rules.choose-Holds (Later-IsPreorder given view documented) t _ (pure none) (raise e)
              (λ _. pure-Kept given view documented t none)
              (λ _. Rules.raise-Holds (Later-IsPreorder given view documented) t e))
        λ content t later. find_indexed-Holds t token content

  pub holds_hash-ok : (o : Option Text) (a : Text) → holds_hash o a ≡ true → o ≡ some a
  holds_hash-ok none a h = absurd (ground arith)
  holds_hash-ok (some b) a h = ap some (eq_of_== b a h)

  pub holds_number-ok : (o : Option ℕ) (n : ℕ) → holds_number o n ≡ true → o ≡ some n
  holds_number-ok none n h = absurd (ground arith)
  holds_number-ok (some m) n h = ground (arith, nat_eq_iff m n)

  pub found-IsAccepted :
      (t : Adapter World Handle) (token result_json : Text) (found : Option JobState)
      → has_result found result_json ≡ true
      → FoundFor token found t
      → IsAccepted given view documented options token result_json t
  unfolding FoundFor
  found-IsAccepted t token result_json none h f = absurd (ground arith)
  found-IsAccepted t token result_json (some state) h (job_id, generation, hash, same, since) =
      IsAccepted-since given view documented options token result_json job_id generation t state
        (holds_hash-ok state.accepted_result_json result_json h, same, hash) since
