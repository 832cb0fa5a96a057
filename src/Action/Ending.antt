-- ===== src/Action/Ending.antt =====
-- Rules for calls that end: from states with a property they lead to states with it, and the fuel of the
-- model does not run out.
use rsyncrypto.Prelude.{
  Bool, true, false, Result, ok, err, Error, is_thrown, if◌then◌else◌, ◌≡◌, ◌≢◌, refl, ap,
}
use rsyncrypto.Action.{Action, ◌>>=◌, pure, throw, catch, try_catch, when, proceed, rescue}

-- It ends, with a value or an error of the code.
abbrev pub IsFuelled : {A : Type 0} → Result A → Type 0
IsFuelled r = r ≢ err Error.out_of_fuel

module _ {W : Type 0} (I : W → Type 0) where
  -- From a state with `I` it leads to one, and ends.
  pub record Finishes {A : Type 0} (m : Action (W) A) : Type 0 where
    pub finishes : (w : W) → I w → IsFuelled (m w).0 × I (m w).1

  pub pure-Finishes : {A : Type 0} (x : A) → Finishes (pure x)
  pure-Finishes x = record { finishes = λ w i. ((λ e. cc), i) }

  pub throw-Finishes : (A : Type 0) (x : Error) → x ≢ Error.out_of_fuel → Finishes (throw {A = A} x)
  throw-Finishes A x h = record { finishes = λ w i. ((λ e. h cc), i) }

  pub then-Finishes :
      {A B : Type 0} (m : Action (W) A) (next : A → Action (W) B)
      → Finishes m
      → ((a : A) (w w' : W) → I w' → m w ≡ (ok a, w') → IsFuelled (next a w').0 × I (next a w').1)
      → Finishes (m >>= next)
  then-Finishes {A} {B} m next h k = record { finishes = λ w i. go w (m w) refl (h.finishes w i) }
    where
      go :
          (w : W) (r : Result A × W)
          → m w ≡ r
          → IsFuelled r.0 × I r.1
          → IsFuelled (proceed next r).0 × I (proceed next r).1
      go w (err x, w') e (fuelled, i) = ((λ z. fuelled cc), i)
      go w (ok a, w') e (fuelled, i) = k a w w' i e

  pub catch-Finishes :
      {A : Type 0} (m : Action (W) A) (handler : Error → Action (W) A)
      → Finishes m
      → ((x : Error) → x ≢ Error.out_of_fuel → Finishes (handler x))
      → Finishes (catch m handler)
  catch-Finishes {A} m handler h k = record { finishes = λ w i. go (m w) (h.finishes w i) }
    where
      go :
          (r : Result A × W)
          → IsFuelled r.0 × I r.1
          → IsFuelled (rescue handler r).0 × I (rescue handler r).1
      go (err x, w') (fuelled, i) = (k x (λ z. fuelled (ap err z))).finishes w' i
      go (ok a, w') s = s

  pub simple-Finishes :
      {A B : Type 0} (m : Action (W) A) (next : A → Action (W) B)
      → Finishes m
      → ((a : A) → Finishes (next a))
      → Finishes (m >>= next)
  simple-Finishes m next h k = then-Finishes m next h (λ a w w' i e. (k a).finishes w' i)

  pub try_catch-Finishes :
      {A : Type 0} (m : Action (W) A) (handler : Error → Action (W) A)
      → Finishes m
      → ((x : Error) → Finishes (handler x))
      → Finishes (try_catch m handler)
  try_catch-Finishes {A} m handler h k =
      catch-Finishes m _ h (λ x ne. if-Finishes (is_thrown x) _ _ (k x) (throw-Finishes A x ne))
    where
      if-Finishes :
          (test : Bool) (m' n : Action (W) A)
          → Finishes m'
          → Finishes n
          → Finishes (if test then m' else n)
      if-Finishes true m' n h' k' = h'
      if-Finishes false m' n h' k' = k'

  pub when-Finishes :
      (test : Bool) (m : Action (W) (Unit {0}))
      → (test ≡ true → Finishes m)
      → Finishes (when test m)
  when-Finishes true m h = h refl
  when-Finishes false m h = pure-Finishes tt
