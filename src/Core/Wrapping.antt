-- ===== src/Core/Wrapping.antt =====
-- The lamports that an order needs if it pays in SOL, of pyserum/market/core.py.
use pyserum.Base.{ℕ, ◌+◌, List, [], ◌∷◌, ℤ, pos, Result, ok, ◌>>=◌}
use pyserum.Base.Signed.{◌-ℤ◌, pos_part}
use pyserum.Floats.{Floats}
use pyserum.OpenOrders.{OpenOrdersAccount}
use pyserum.OrderBook.{Side, buy, sell}

abbrev pub lamports_per_sol : ℕ
lamports_per_sol = 1000000000

-- `if open_orders_accounts: lamports -= ...` of the first account
abbrev pub less_free :
    {Key : Type 0} → (OpenOrdersAccount Key → ℕ) → List (OpenOrdersAccount Key) → ℤ → ℤ
less_free free [] lamports = lamports
less_free free (account ∷ accounts) lamports = lamports -ℤ pos (free account)

module _ (floats : Floats) {Key : Type 0} where
  open floats use {Float, mul, mul_int, one_and_a_hundredth, round}

  unfoldable pub get_lamport_need_for_sol_wrapping :
      Float → Float → Side → List (OpenOrdersAccount Key) → Result ℕ
  get_lamport_need_for_sol_wrapping price size buy open_orders_accounts = do
    cost ← mul price size
    cost' ← mul cost one_and_a_hundredth
    scaled ← mul_int cost' lamports_per_sol
    lamports ← round scaled
    let needed = less_free (λ a. a.quote_token_free) open_orders_accounts lamports
    ok (pos_part needed + 10000000)
  get_lamport_need_for_sol_wrapping price size sell open_orders_accounts = do
    scaled ← mul_int size lamports_per_sol
    lamports ← round scaled
    let needed = less_free (λ a. a.base_token_free) open_orders_accounts lamports
    ok (pos_part needed + 10000000)
