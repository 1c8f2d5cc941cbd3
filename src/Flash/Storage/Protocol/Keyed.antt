-- ===== src/Flash/Storage/Protocol/Keyed.antt =====
-- The claims of a process are kept under their tokens.
use long_haul.Prelude.{ℕ, ◌≡◌, refl, true, some, [], ◌∷◌, arith, all, Text, ◌==◌, eq_iff}
use long_haul.Prelude.Dict.{Dict, get, put, pop}
use long_haul.Flash.Storage.{ClaimContext}
use long_haul.Flash.Storage.Claiming.{live_claims}

abbrev pub IsKeyed : {Handle : Type 0} → Dict (ClaimContext Handle) → Type 0
IsKeyed claims = all (λ c. c.1.token == c.0) claims ≡ true

module _ {Handle : Type 0} where
  pub get-IsKeyed :
      (d : Dict (ClaimContext Handle)) (token : Text) (c : ClaimContext Handle)
      → IsKeyed d
      → get d token ≡ some c
      → c.token ≡ token
  unfolding get
  get-IsKeyed [] token c keyed h = absurd (ground arith)
  get-IsKeyed ((k, x) ∷ d) token c keyed h =
      ground (arith, eq_iff x.token k, eq_iff k token, get-IsKeyed d token c)

  pub put-IsKeyed :
      (d : Dict (ClaimContext Handle)) (token : Text) (c : ClaimContext Handle)
      → c.token ≡ token
      → IsKeyed d
      → IsKeyed (put d token c)
  unfolding put
  put-IsKeyed [] token c own keyed = ground (arith, eq_iff c.token token)
  put-IsKeyed ((k, x) ∷ d) token c own keyed =
      ground
        (arith, eq_iff c.token k, eq_iff c.token token, eq_iff k token, put-IsKeyed d token c own)

  pub pop-IsKeyed :
      (d : Dict (ClaimContext Handle)) (token : Text) → IsKeyed d → IsKeyed (pop d token)
  unfolding pop
  pop-IsKeyed [] token keyed = refl
  pop-IsKeyed ((k, x) ∷ d) token keyed = ground (arith, pop-IsKeyed d token)

  pub live_claims-IsKeyed :
      (now : ℕ) (d : Dict (ClaimContext Handle)) → IsKeyed d → IsKeyed (live_claims now d)
  live_claims-IsKeyed now [] keyed = refl
  live_claims-IsKeyed now ((k, x) ∷ d) keyed = ground (arith, live_claims-IsKeyed now d)
