-- ===== src/Net/Steps.antt =====
-- One step of code that talks to a server, once it is known what the step does.
use pyserum.Base.{
  ◌≡◌, ◌≢◌, refl, ap, sym, Bool, true, false, true≢false, Result, ok, err, Error, ◌>>=◌ as ◌then◌,
}
use pyserum.Net.Action.{Action, lift, ◌>>=◌}

module _ {W A B : Type 0} where
  after : (Result A × W) → (A → Action W B) → Result B × W
  after r next = ◌>>=◌ (λ (_ : W). r) next r.1

  -- A step that returns is followed by the rest.
  pub returns :
      (m : Action W A) (next : A → Action W B) (w w' : W) (a : A)
      → m w ≡ (ok a, w')
      → (m >>= next) w ≡ next a w'
  unfolding after
  returns m next w w' a h = ap (λ r. after r next) h

  -- A step that raises ends the code.
  pub raises :
      (m : Action W A) (next : A → Action W B) (w w' : W) (e : Error)
      → m w ≡ (err e, w')
      → (m >>= next) w ≡ (err e, w')
  unfolding after
  raises m next w w' e h = ap (λ r. after r next) h

  -- A step that asks no server.
  pub returned :
      (r : Result A) (next : A → Action W B) (w : W) (a : A)
      → r ≡ ok a
      → (lift r >>= next) w ≡ next a w
  returned r next w a h = returns (lift r) next w w a (ap (λ x. (x, w)) h)

is_ok : {A : Type 0} → Result A → Bool
is_ok (ok a) = true
is_ok (err e) = false

err_ne_ok : {A : Type 0} (e : Error) (a : A) → Result.err e ≢ ok a
unfolding is_ok
err_ne_ok e a h = true≢false (sym (ap is_ok h))

-- What goes on to a result was a result, from which it went on.
pub went_on_to :
    {A B : Type 0} (r : Result A) (next : A → Result B) (b : B)
    → ◌then◌ r next ≡ ok b
    → (a : A) × (r ≡ ok a) × (next a ≡ ok b)
went_on_to (ok a) next b h = (a, refl, h)
went_on_to (err e) next b h = elim (err_ne_ok e b h) [ ]

pub went_on :
    {A B : Type 0} (r : Result A) (next : A → Result B) (b : B)
    → ◌then◌ r next ≡ ok b
    → (a : A) × (r ≡ ok a)
went_on r next b h = let (a, e, _) = went_on_to r next b h in (a, e)
