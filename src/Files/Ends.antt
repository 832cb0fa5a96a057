-- ===== src/Files/Ends.antt =====
-- Calls that end without an error, and what holds then.
use rsyncrypto.Prelude.{ok, ◌≡◌, refl, sym, subst, ◌∙◌, ap}
use rsyncrypto.Action.{Action, proceed, ◌>>=◌, pure}

-- The call ends without an error, in a state of which `P` holds.
pub record Ends {W A : Type 0} (m : Action W A) (w : W) (P : A → W → Type 0) : Type 0 where
  pub value : A
  pub after : W
  pub run : m w ≡ (ok value, after)
  pub holds : P value after

pub Ends->>= :
    {W A B : Type 0} (m : Action W A) (next : A → Action W B) (w : W) (P : A → W → Type 0)
    (Q : B → W → Type 0)
    → Ends m w P
    → ((a : A) (w' : W) → P a w' → Ends (next a) w' Q)
    → Ends (m >>= next) w Q
Ends->>= {W} {A} {B} m next w P Q e k =
    let n = k e.value e.after e.holds in
    record {
      value = n.value;
      after = n.after;
      run = ap (proceed next) e.run ∙ n.run;
      holds = n.holds;
    }

pub Ends-pure : {W A : Type 0} (a : A) (w : W) (P : A → W → Type 0) → P a w → Ends (pure a) w P
Ends-pure a w P h = record { value = a; after = w; run = refl; holds = h }

pub Ends->>=_at :
    {W A B : Type 0} (m : Action W A) (next : A → Action W B) (w : W) (v : A) (P : W → Type 0)
    (Q : B → W → Type 0)
    → Ends m w (λ a w'. (a ≡ v) × P w')
    → ((w' : W) → P w' → Ends (next v) w' Q)
    → Ends (m >>= next) w Q
Ends->>=_at {W} {A} {B} m next w v P Q e k =
    Ends->>= m next w (λ a w'. (a ≡ v) × P w') Q e
      (λ a w' h. subst (λ (x : A). Ends (next x) w' Q) (sym h.0) (k w' h.1))
