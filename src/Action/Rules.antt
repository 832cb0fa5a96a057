-- ===== src/Action/Rules.antt =====
-- Rules for relations between the state before a call and the state after it.
use rsyncrypto.Prelude.{Result, ok, err, Error, if◌then◌else◌, Bool, true, false, ◌≡◌}
use rsyncrypto.Action.{Action, proceed, rescue, ◌>>=◌, pure, throw, catch}

-- A relation that a call may be left out of, and that calls after each other keep.
pub record IsPreorder {W : Type 0} (R : W → W → Type 0) : Type 0 where
  pub same : (w : W) → R w w
  pub trans : (u v w : W) → R u v → R v w → R u w

module _ {W : Type 0} (R : W → W → Type 0) where
  -- However the call ends.
  pub record Stays {A : Type 0} (m : Action W A) : Type 0 where
    pub stays : (w : W) → R w (m w).1

  -- When the call throws.
  pub record Spares {A : Type 0} (m : Action W A) : Type 0 where
    pub spares : (w : W) (x : Error) → (m w).0 ≡ err x → R w (m w).1

module _ {W : Type 0} (R : W → W → Type 0) (P : IsPreorder R) where
  pub pure-Stays : {A : Type 0} (a : A) → Stays R (pure a)
  pure-Stays a = record { stays = P.same }

  pub throw-Stays : (A : Type 0) (e : Error) → Stays R (throw {A = A} e)
  throw-Stays A e = record { stays = P.same }

  pub >>=-Stays :
      {A B : Type 0} (m : Action W A) (next : A → Action W B)
      → Stays R m
      → ((a : A) → Stays R (next a))
      → Stays R (m >>= next)
  >>=-Stays {A} {B} m next h k = record { stays = λ w. go w (m w) (h.stays w) }
    where
      go : (w : W) (r : Result A × W) → R w r.1 → R w (proceed next r).1
      go w (err x, w') s = s
      go w (ok a, w') s = P.trans w w' (next a w').1 s ((k a).stays w')

  pub >>=-Spares :
      {A B : Type 0} (m : Action W A) (next : A → Action W B)
      → Stays R m
      → ((a : A) → Spares R (next a))
      → Spares R (m >>= next)
  >>=-Spares {A} {B} m next h k = record { spares = λ w x. go w x (m w) (h.stays w) }
    where
      go :
          (w : W) (x : Error) (r : Result A × W)
          → R w r.1
          → (proceed next r).0 ≡ err x
          → R w (proceed next r).1
      go w x (err y, w') s e = s
      go w x (ok a, w') s e = P.trans w w' (next a w').1 s ((k a).spares w' x e)

  pub Stays-Spares : {A : Type 0} (m : Action W A) → Stays R m → Spares R m
  Stays-Spares m h = record { spares = λ w x e. h.stays w }

  pub catch-Stays :
      {A : Type 0} (m : Action W A) (handler : Error → Action W A)
      → Stays R m
      → ((x : Error) → Stays R (handler x))
      → Stays R (catch m handler)
  catch-Stays {A} m handler h k = record { stays = λ w. go w (m w) (h.stays w) }
    where
      go : (w : W) (r : Result A × W) → R w r.1 → R w (rescue handler r).1
      go w (err x, w') s = P.trans w w' (handler x w').1 s ((k x).stays w')
      go w (ok a, w') s = s

  pub if-Stays :
      {A : Type 0} (test : Bool) (m n : Action W A)
      → Stays R m
      → Stays R n
      → Stays R (if test then m else n)
  if-Stays true m n h k = h
  if-Stays false m n h k = k
