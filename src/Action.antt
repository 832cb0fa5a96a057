-- ===== src/Action.antt =====
-- Calls that can throw, on a state: what was done stays done when a call throws.
pub mod Rules
pub mod Ending
use rsyncrypto.Prelude.{Result, ok, err, Error, if◌then◌else◌, Bool, is_thrown}

abbrev pub Action : Type 0 → Type 0 → Type 0
Action W A = W → Result A × W

module _ {W A B : Type 0} where
  -- What follows a call that gave this.
  abbrev pub proceed : (A → Action W B) → Result A × W → Result B × W
  proceed next (err thrown, w) = (err thrown, w)
  proceed next (ok a, w) = next a w

module _ {W A : Type 0} where
  abbrev pub rescue : (Error → Action W A) → Result A × W → Result A × W
  rescue handler (err thrown, w) = handler thrown w
  rescue handler (ok a, w) = (ok a, w)

module _ {W : Type 0} where
  infixl 5 ◌>>=◌ ◌>>◌
  abbrev pub ◌>>=◌ : {A B : Type 0} → Action W A → (A → Action W B) → Action W B
  ◌>>=◌ m next w = proceed next (m w)

  abbrev pub ◌>>◌ : {A B : Type 0} → Action W A → Action W B → Action W B
  m >> next = m >>= λ ignored. next

module _ {W A : Type 0} where
  abbrev pub pure : A → Action W A
  pure a w = (ok a, w)

  abbrev pub throw : Error → Action W A
  throw e w = (err e, w)

  abbrev pub gets : (W → A) → Action W A
  gets f w = (ok (f w), w)

  abbrev pub lift : Result A → Action W A
  lift r w = (r, w)

  abbrev pub catch : Action W A → (Error → Action W A) → Action W A
  catch m handler w = rescue handler (m w)

  -- `try { … } catch( const rscerror &err ) { … }`
  abbrev pub try_catch : Action W A → (Error → Action W A) → Action W A
  try_catch m handler = catch m (λ e. if is_thrown e then handler e else throw e)

abbrev pub modify : {W : Type 0} → (W → W) → Action W (Unit {0})
modify f w = (ok tt, f w)

abbrev pub when : {W : Type 0} → Bool → Action W (Unit {0}) → Action W (Unit {0})
when test m = if test then m else pure tt
