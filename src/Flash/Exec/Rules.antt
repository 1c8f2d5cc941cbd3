-- ===== src/Flash/Exec/Rules.antt =====
-- Rules for what an action does to its state, one for each way to build an action. `Rel` relates a
-- state to those that may follow it; `Q` is what holds of the result and the state when it returns.
use long_haul.Prelude.{◌≡◌, refl, Bool, true, false, arith}
use mathlib.Core.Path.{subst}
use long_haul.Prelude.Results.{Fault, Result, ok, err}
use long_haul.Flash.Clock.{Exec}
use long_haul.Flash.Exec.{
  pure, lift, raise, gets, catch, choose, modify, raise_when, continue, handle_result, ◌>>=◌, ◌>>◌,
}

pub record IsPreorder {S : Type 0} (Rel : S → S → Type 0) : Type 0 where
  pub stay : (s : S) → Rel s s
  pub follow : (s t u : S) → Rel s t → Rel t u → Rel s u

pub record Holds {S A : Type 0} (Rel : S → S → Type 0) (m : Exec S A) (s : S) (Q : A → S → Type 0)
    : Type 0 where
  pub keeps : Rel s (m s).1
  pub ensures : (a : A) → (m s).0 ≡ ok a → Q a (m s).1

ok_inj : {A : Type 0} {a b : A} → ok a ≡ ok b → a ≡ b
ok_inj e = cc

module _ {S : Type 0} {Rel : S → S → Type 0} (order : IsPreorder Rel) where
  module _ {A : Type 0} {Q : A → S → Type 0} (s : S) where
    pub pure-Holds : (a : A) → Q a s → Holds Rel (pure a) s Q
    unfolding pure
    pure-Holds a q = record {
      keeps = order.stay s;
      ensures = λ b e. subst (λ x. Q x s) (ok_inj e) q;
    }

    pub raise-Holds : (e : Fault) → Holds Rel (raise e) s Q
    unfolding raise
    raise-Holds e = record { keeps = order.stay s; ensures = λ a h. absurd (ground arith) }

    pub lift-Holds : (r : Result A) → ((a : A) → r ≡ ok a → Q a s) → Holds Rel (lift r) s Q
    unfolding lift
    lift-Holds r q = record { keeps = order.stay s; ensures = q }

    pub gets-Holds : (f : S → A) → Q (f s) s → Holds Rel (gets f) s Q
    unfolding gets
    gets-Holds f q = record {
      keeps = order.stay s;
      ensures = λ b e. subst (λ x. Q x s) (ok_inj e) q;
    }

    pub choose-Holds :
        (b : Bool) (m n : Exec S A)
        → (b ≡ true → Holds Rel m s Q)
        → (b ≡ false → Holds Rel n s Q)
        → Holds Rel (choose b m n) s Q
    unfolding choose
    choose-Holds true m n hm hn = hm refl
    choose-Holds false m n hm hn = hn refl

  module _ {A B : Type 0} {Q : B → S → Type 0} where
    continue-Holds :
        (s : S) (r : Result A) (t : S) (f : A → Exec S B)
        → Rel s t
        → ((a : A) → r ≡ ok a → Holds Rel (f a) t Q)
        → Holds Rel (λ (_ : S). continue r f t) s Q
    continue-Holds s (ok a) t f st next = record {
      keeps = order.follow s t (f a t).1 st (next a refl).keeps;
      ensures = (next a refl).ensures;
    }
    continue-Holds s (err e) t f st next = record {
      keeps = st;
      ensures = λ a h. absurd (ground arith);
    }

    -- The rest of a block may use what its first action ensures, and that the state is a later one.
    pub bind-Holds :
        {P : A → S → Type 0} {m : Exec S A} {f : A → Exec S B} (s : S)
        → Holds Rel m s P
        → ((a : A) (t : S) → Rel s t → P a t → Holds Rel (f a) t Q)
        → Holds Rel (m >>= f) s Q
    unfolding ◌>>=◌
    bind-Holds {m} {f} s first next =
        let rest =
          continue-Holds s (m s).0 (m s).1 f first.keeps
            (λ a e. next a (m s).1 first.keeps (first.ensures a e)) in
        record { keeps = rest.keeps; ensures = rest.ensures }

  module _ {A : Type 0} {Q : A → S → Type 0} where
    handle_result-Holds :
        (s : S) (r : Result A) (t : S) (h : Fault → Exec S A)
        → Rel s t
        → ((a : A) → r ≡ ok a → Q a t)
        → ((e : Fault) → r ≡ err e → Holds Rel (h e) t Q)
        → Holds Rel (λ (_ : S). handle_result r h t) s Q
    handle_result-Holds s (ok a) t h st q next = record {
      keeps = st;
      ensures = λ b e. subst (λ x. Q x t) (ok_inj e) (q a refl);
    }
    handle_result-Holds s (err e) t h st q next = record {
      keeps = order.follow s t (h e t).1 st (next e refl).keeps;
      ensures = (next e refl).ensures;
    }

    pub catch-Holds :
        {m : Exec S A} {h : Fault → Exec S A} (s : S)
        → Holds Rel m s Q
        → ((e : Fault) (t : S) → Rel s t → (m s).0 ≡ err e → Holds Rel (h e) t Q)
        → Holds Rel (catch m h) s Q
    unfolding catch
    catch-Holds {m} {h} s body handler =
        let rest =
          handle_result-Holds s (m s).0 (m s).1 h body.keeps body.ensures
            (λ e raised. handler e (m s).1 body.keeps raised) in
        record { keeps = rest.keeps; ensures = rest.ensures }

    -- A weaker postcondition.
    pub weaken-Holds :
        {m : Exec S A} {P : A → S → Type 0} (s : S)
        → Holds Rel m s P
        → ((a : A) (t : S) → Rel s t → P a t → Q a t)
        → Holds Rel m s Q
    weaken-Holds {m} s h w = record {
      keeps = h.keeps;
      ensures = λ a e. w a (m s).1 h.keeps (h.ensures a e);
    }

  pub raise_when-Holds :
      (s : S) (b : Bool) (e : Fault) → Holds Rel (raise_when b e) s (λ _ t. (b ≡ false) × (t ≡ s))
  unfolding raise_when
  raise_when-Holds s true e = record {
    keeps = order.stay s;
    ensures = λ a h. absurd (ground arith);
  }
  raise_when-Holds s false e = record { keeps = order.stay s; ensures = λ a h. (refl, refl) }

  pub modify-Holds : (s : S) (f : S → S) → Rel s (f s) → Holds Rel (modify f) s (λ _ t. t ≡ f s)
  unfolding modify
  modify-Holds s f r = record { keeps = r; ensures = λ a h. refl }

  -- The same rules for the first action of a block.
  module _ {A B : Type 0} {Q : B → S → Type 0} (s : S) where
    pub lift_bind :
        {f : A → Exec S B} (r : Result A)
        → ((a : A) → r ≡ ok a → Holds Rel (f a) s Q)
        → Holds Rel (lift r >>= f) s Q
    unfolding ◌>>=◌
    lift_bind (ok a) next = let h = next a refl in record { keeps = h.keeps; ensures = h.ensures }
    lift_bind (err e) next = record { keeps = order.stay s; ensures = λ a h. absurd (ground arith) }

    pub gets_bind :
        (f : A → Exec S B) (g : S → A) → Holds Rel (f (g s)) s Q → Holds Rel (gets g >>= f) s Q
    unfolding ◌>>=◌
    gets_bind f g h = record { keeps = h.keeps; ensures = h.ensures }

  module _ {B : Type 0} {Q : B → S → Type 0} {m : Exec S B} (s : S) where
    pub guard_bind :
        (b : Bool) (e : Fault) → (b ≡ false → Holds Rel m s Q) → Holds Rel (raise_when b e >> m) s Q
    unfolding ◌>>=◌
    guard_bind true e next = record { keeps = order.stay s; ensures = λ a h. absurd (ground arith) }
    guard_bind false e next = let h = next refl in record { keeps = h.keeps; ensures = h.ensures }

    pub modify_bind :
        (g : S → S) → Rel s (g s) → Holds Rel m (g s) Q → Holds Rel (modify g >> m) s Q
    unfolding ◌>>=◌
    modify_bind g r h = record {
      keeps = order.follow s (g s) (m (g s)).1 r h.keeps;
      ensures = h.ensures;
    }
