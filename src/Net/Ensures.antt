-- ===== src/Net/Ensures.antt =====
-- What holds of the result of code that may raise, if it does not, step by step.
use pyserum.Base.{◌≡◌, refl, Result, ok, err}
use pyserum.Net.Action.{Action, ◌>>=◌}

abbrev pub Ensures : {A : Type 0} → (A → Type 0) → Result A → Type 0
Ensures P (ok a) = P a
Ensures P (err e) = Unit

pub Ensures-imp :
    {A : Type 0} (P Q : A → Type 0) (r : Result A)
    → Ensures P r
    → ((a : A) → P a → Ensures Q (ok a))
    → Ensures Q r
Ensures-imp P Q (ok a) h f = f a h
Ensures-imp P Q (err e) h f = tt

pub Ensures-ok :
    {A : Type 0} (P : A → Type 0) (r : Result A) → ((a : A) → r ≡ ok a → P a) → Ensures P r
Ensures-ok P (ok a) f = f a refl
Ensures-ok P (err e) f = tt

pub Ensures-any : {A : Type 0} (r : Result A) → Ensures (λ a. Unit {0}) r
Ensures-any (ok a) = tt
Ensures-any (err e) = tt

module _ {W A B : Type 0} (P : A → Type 0) (Q : B → Type 0) where
  Ensures-after :
      (r : Result A) (w : W) (next : A → Action W B)
      → Ensures P r
      → ((a : A) (w' : W) → P a → Ensures Q (next a w').0)
      → Ensures Q (◌>>=◌ (λ (_ : W). (r, w)) next w).0
  Ensures-after (ok a) w next h f = f a w h
  Ensures-after (err e) w next h f = tt

  -- After an action whose result has one property, the rest has the other.
  pub Ensures-bind :
      (m : Action W A) (next : A → Action W B) (w : W)
      → Ensures P (m w).0
      → ((a : A) (w' : W) → P a → Ensures Q (next a w').0)
      → Ensures Q ((m >>= next) w).0
  Ensures-bind m next w h f = Ensures-after (m w).0 (m w).1 next h f
