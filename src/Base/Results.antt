-- ===== src/Base/Results.antt =====
-- Python's signed integers, and the results of code that may raise.
use Prim.Native.Nat.{ℕ}
use mathlib.Core.Option.{Option, none, some}
use mathlib.Core.List.{List, [], ◌∷◌}

-- `negsuc n` is -(n + 1).
pub data ℤ : Type 0 where
  pos : ℕ → ℤ
  negsuc : ℕ → ℤ

-- What the modelled code raises, one constructor for each place that raises or kind of exception
-- that Python itself raises. `out_of_fuel` is the model's own: a loop that has not ended yet.
pub data Error : Type 0 where
  construct_error overflow_error : Error
  index_error value_error attribute_error zero_division key_error : Error
  invalid_market invalid_order_book invalid_request_queue invalid_event_queue : Error
  invalid_open_orders node_type_not_recognized neither_leaf_nor_inner : Error
  type_error unbound_local cannot_load_data : Error
  size_too_small price_too_small invalid_payer : Error
  invalid_owner base_wallet_is_vault quote_wallet_is_vault : Error
  out_of_fuel : Error

-- What a function returns or raises.
pub data Result {ℓ} (A : Type ℓ) : Type ℓ where
  err : Error → Result A
  ok : A → Result A

infixl 5 ◌>>◌
abbrev pub ◌>>◌ {κ} : {B : Type κ} → Result (Unit {0}) → Result B → Result B
err raised >> next = err raised
ok _ >> next = next

infixl 5 ◌>>=◌
abbrev pub ◌>>=◌ {ℓ κ} : {A : Type ℓ} {B : Type κ} → Result A → (A → Result B) → Result B
err raised >>= next = err raised
ok returned >>= next = next returned

abbrev pub or_raise {ℓ} : {A : Type ℓ} → Option A → Error → Result A
or_raise none e = err e
or_raise (some a) e = ok a

-- A list comprehension whose element expression may raise.
abbrev pub map_result {ℓ κ} : {A : Type ℓ} {B : Type κ} → (A → Result B) → List A → Result (List B)
map_result f [] = ok []
map_result f (x ∷ xs) = do y ← f x; ys ← map_result f xs; ok (y ∷ ys)

-- What iterating over a generator gives: the values it yields, then how its body ended.
pub record Iteration (A : Type 0) : Type 0 where
  pub yielded : List A
  pub ended : Result (Unit {0})
