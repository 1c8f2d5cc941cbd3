-- ===== src/Flash/Exec.antt =====
-- Methods of an object, as actions: what was written before an exception stays written.
pub mod Rules
use long_haul.Prelude.{Bool, true, false}
use long_haul.Prelude.Results.{Fault, Result, ok, err}
use long_haul.Flash.Clock.{Exec}

module _ {S A : Type 0} where
  unfoldable pub pure : A → Exec S A
  pure a s = (ok a, s)

  unfoldable pub lift : Result A → Exec S A
  lift r s = (r, s)

  unfoldable pub raise : Fault → Exec S A
  raise e s = (err e, s)

  unfoldable pub gets : (S → A) → Exec S A
  gets f s = (ok (f s), s)

  abbrev handle_result : Result A → (Fault → Exec S A) → Exec S A
  handle_result (ok a) h s = (ok a, s)
  handle_result (err e) h s = h e s

  -- try: m, except: h
  unfoldable pub catch : Exec S A → (Fault → Exec S A) → Exec S A
  catch m h s = let (r, s') = m s in handle_result r h s'

  -- Either of two actions.
  unfoldable pub choose : Bool → Exec S A → Exec S A → Exec S A
  choose true m n = m
  choose false m n = n

module _ {S : Type 0} where
  unfoldable pub modify : (S → S) → Exec S (Unit {0})
  modify f s = (ok tt, f s)

  -- if c: raise e
  unfoldable pub raise_when : Bool → Fault → Exec S (Unit {0})
  raise_when true e s = (err e, s)
  raise_when false e s = (ok tt, s)

module _ {S A B : Type 0} where
  abbrev continue : Result A → (A → Exec S B) → Exec S B
  continue (ok a) f s = f a s
  continue (err e) f s = (err e, s)

  infixl 5 ◌>>=◌ ◌>>◌
  unfoldable pub ◌>>=◌ : Exec S A → (A → Exec S B) → Exec S B
  unfolding pure lift raise gets catch choose modify raise_when
  ◌>>=◌ m f s = let (r, s') = m s in continue r f s'

  abbrev pub ◌>>◌ : Exec S A → Exec S B → Exec S B
  m >> n = m >>= λ _. n
