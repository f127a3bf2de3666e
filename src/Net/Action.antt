-- ===== src/Net/Action.antt =====
-- Code that talks to a server: it may change the world outside the program, and may raise.
use pyserum.Base.{Result, ok, err}

abbrev pub Action : Type 0 → Type 0 → Type 0
Action W A = W → Result A × W

module _ {W : Type 0} where
  abbrev pub lift : {A : Type 0} → Result A → Action W A
  lift r w = (r, w)

  infixl 5 ◌>>=◌
  abbrev pub ◌>>=◌ : {A B : Type 0} → Action W A → (A → Action W B) → Action W B
  ◌>>=◌ m next w =
      let (r, w') = m w in elim r [ err e ↦ (err e, w') | ok returned ↦ next returned w' ]

  infixl 5 ◌>>◌
  abbrev pub ◌>>◌ : {B : Type 0} → Action W (Unit {0}) → Action W B → Action W B
  m >> next = m >>= λ _. next
