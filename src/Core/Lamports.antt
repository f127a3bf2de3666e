-- ===== src/Core/Lamports.antt =====
-- How many lamports pyserum/market/core.py puts into an account for wrapped SOL.
use pyserum.Base.{
  ℕ, ◌+◌, ◌≤◌, ◌≡◌, refl, ap, ◌⊎◌, inr, sym, ◌∙◌, List, [], ◌∷◌, ℤ, pos, Result, ok, err, ◌>>=◌,
  arith,
}
use pyserum.Base.Signed.{◌-ℤ◌, pos_part}
use pyserum.Floats.{Floats}
use pyserum.OpenOrders.{OpenOrdersAccount}
use pyserum.OrderBook.{Side, buy, sell}
use pyserum.Core.Wrapping.{lamports_per_sol, less_free, get_lamport_need_for_sol_wrapping}

-- The lamports that an order's own account has free already: the first account's.
abbrev pub free_of : {Key : Type 0} → Side → List (OpenOrdersAccount Key) → ℕ
free_of side [] = 0
free_of buy (account ∷ accounts) = account.quote_token_free
free_of sell (account ∷ accounts) = account.base_token_free

-- What an order costs, in lamports: a bid its price and 1 % more, an ask its size.
abbrev pub cost_of : (floats : Floats) → floats.Float → floats.Float → Side → Result ℤ
cost_of floats price size buy = floats.mul price size >>= λ cost.
    floats.mul cost floats.one_and_a_hundredth >>= λ cost'.
    floats.mul_int cost' lamports_per_sol >>= λ scaled. floats.round scaled
cost_of floats price size sell =
    floats.mul_int size lamports_per_sol >>= λ scaled. floats.round scaled

-- The least lamports that, together with what is free already, cover a cost and a spare amount, but
-- are never less than the spare amount itself.
abbrev pub IsLeast : ℕ → ℤ → ℕ → Type 0
IsLeast free cost lamports =
    (pos_part cost + 10000000 ≤ lamports + free)
    × (10000000 ≤ lamports)
    × ((lamports ≡ 10000000) ⊎ (lamports + free ≡ pos_part cost + 10000000))

bind_assoc :
    {A B C : Type 0} (r : Result A) (f : A → Result B) (g : B → Result C)
    → ((r >>= f) >>= g) ≡ (r >>= λ a. f a >>= g)
bind_assoc (ok a) f g = refl
bind_assoc (err e) f g = refl

bind_same :
    {A B : Type 0} (r : Result A) (f g : A → Result B)
    → ((a : A) → f a ≡ g a)
    → (r >>= f) ≡ (r >>= g)
bind_same (ok a) f g h = h a
bind_same (err e) f g h = refl

less_IsLeast : (cost : ℤ) (free : ℕ) → IsLeast free cost (pos_part (cost -ℤ pos free) + 10000000)
unfolding ◌-ℤ◌
less_IsLeast cost free = (ground arith, omega arith, ground arith)

module _ (floats : Floats) {Key : Type 0} where
  open floats use {Float, mul, mul_int, one_and_a_hundredth, round}

  needed : Side → List (OpenOrdersAccount Key) → ℤ → ℕ
  needed buy accounts cost = pos_part (less_free (λ a. a.quote_token_free) accounts cost) + 10000000
  needed sell accounts cost = pos_part (less_free (λ a. a.base_token_free) accounts cost) + 10000000

  needed-IsLeast :
      (side : Side) (accounts : List (OpenOrdersAccount Key)) (cost : ℤ)
      → IsLeast (free_of side accounts) cost (needed side accounts cost)
  unfolding needed
  needed-IsLeast buy [] cost = (omega arith, omega arith, inr (omega arith))
  needed-IsLeast sell [] cost = (omega arith, omega arith, inr (omega arith))
  needed-IsLeast buy (account ∷ accounts) cost = less_IsLeast cost account.quote_token_free
  needed-IsLeast sell (account ∷ accounts) cost = less_IsLeast cost account.base_token_free

  need-cost_of :
      (price size : Float) (side : Side) (accounts : List (OpenOrdersAccount Key))
      → get_lamport_need_for_sol_wrapping floats price size side accounts
        ≡ (cost_of floats price size side >>= λ cost. ok (needed side accounts cost))
  unfolding get_lamport_need_for_sol_wrapping needed
  need-cost_of price size buy accounts = sym (
      bind_assoc (mul price size) _ _
      ∙ bind_same (mul price size) _ _ λ cost.
        bind_assoc (mul cost one_and_a_hundredth) _ _
        ∙ bind_same (mul cost one_and_a_hundredth) _ _
            λ cost'. bind_assoc (mul_int cost' lamports_per_sol) round _)
  need-cost_of price size sell accounts = sym (bind_assoc (mul_int size lamports_per_sol) round _)

  -- If an order's cost can be computed, then so can the lamports that wrapping takes. They are the least
  -- that, with what is free in the owner's first account for the side of the order, cover the cost,
  -- if it is not negative, and 10000000 lamports more, but never less than 10000000.
  pub get_lamport_need_for_sol_wrapping-IsLeast :
      (price size : Float) (side : Side) (accounts : List (OpenOrdersAccount Key)) (cost : ℤ)
      → cost_of floats price size side ≡ ok cost
      → (lamports : ℕ) × (get_lamport_need_for_sol_wrapping floats price size side accounts
          ≡ ok lamports)
        × IsLeast (free_of side accounts) cost lamports
  get_lamport_need_for_sol_wrapping-IsLeast price size side accounts cost h = (
    needed side accounts cost,
    need-cost_of price size side accounts ∙ ap (λ c. c >>= λ x. ok (needed side accounts x)) h,
    needed-IsLeast side accounts cost,
  )
