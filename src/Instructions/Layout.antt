-- ===== src/Instructions/Layout.antt =====
-- pyserum/_layouts/instructions.py: the layout of the data of an instruction.
use pyserum.Base.{ℕ, Option, none, some, ◌==◌, if◌then◌else◌}
use pyserum.Base.Bytes.{Bytes}
use pyserum.Construct.{Codec, Construct, named, int8ul, int16ul, int32ul, int64ul, bytes, ◌⨟◌}
use pyserum.Layouts.Slab.{choice}

-- What the Switch on the type parses: the values of the fields, in the order of the struct. `no_args`
-- is the value of Pass, which is also the Switch's default.
pub data Args : Type 0 where
  initialize_market_args : ℕ × (ℕ × (ℕ × (ℕ × ℕ))) → Args
  new_order_args : ℕ × (ℕ × (ℕ × (ℕ × ℕ))) → Args
  match_orders_args : ℕ → Args
  consume_events_args : ℕ → Args
  cancel_order_args : ℕ × (Bytes × (Bytes × ℕ)) → Args
  cancel_order_by_client_id_args : ℕ → Args
  new_order_v3_args : ℕ × (ℕ × (ℕ × (ℕ × (ℕ × (ℕ × (ℕ × ℕ)))))) → Args
  cancel_order_v2_args : ℕ × Bytes → Args
  cancel_order_by_client_id_v2_args : ℕ → Args
  no_args : Args

abbrev pub as_initialize_market : Args → Option (ℕ × (ℕ × (ℕ × (ℕ × ℕ))))
as_initialize_market (initialize_market_args a) = some a
as_initialize_market _ = none

abbrev pub as_new_order : Args → Option (ℕ × (ℕ × (ℕ × (ℕ × ℕ))))
as_new_order (new_order_args a) = some a
as_new_order _ = none

abbrev pub as_match_orders : Args → Option (ℕ)
as_match_orders (match_orders_args a) = some a
as_match_orders _ = none

abbrev pub as_consume_events : Args → Option (ℕ)
as_consume_events (consume_events_args a) = some a
as_consume_events _ = none

abbrev pub as_cancel_order : Args → Option (ℕ × (Bytes × (Bytes × ℕ)))
as_cancel_order (cancel_order_args a) = some a
as_cancel_order _ = none

abbrev pub as_cancel_order_by_client_id : Args → Option (ℕ)
as_cancel_order_by_client_id (cancel_order_by_client_id_args a) = some a
as_cancel_order_by_client_id _ = none

abbrev pub as_new_order_v3 : Args → Option (ℕ × (ℕ × (ℕ × (ℕ × (ℕ × (ℕ × (ℕ × ℕ)))))))
as_new_order_v3 (new_order_v3_args a) = some a
as_new_order_v3 _ = none

abbrev pub as_cancel_order_v2 : Args → Option (ℕ × Bytes)
as_cancel_order_v2 (cancel_order_v2_args a) = some a
as_cancel_order_v2 _ = none

-- The attribute `open_orders_slot`, which a container has if its struct has a field of that name.
unfoldable pub open_orders_slot_of : Args → Option ℕ
open_orders_slot_of (cancel_order_args (side, (order_id, (open_orders, open_orders_slot)))) =
    some open_orders_slot
open_orders_slot_of _ = none

abbrev pub as_cancel_order_by_client_id_v2 : Args → Option (ℕ)
as_cancel_order_by_client_id_v2 (cancel_order_by_client_id_v2_args a) = some a
as_cancel_order_by_client_id_v2 _ = none

abbrev pub as_no_args : Args → Option (Unit {0})
as_no_args no_args = some tt
as_no_args _ = none

pub record InstructionContainer : Type 0 where
  pub instruction_type : ℕ
  pub args : Args

abbrev pub instruction_of : Unit {0} × (ℕ × Args) → InstructionContainer
instruction_of (_, (instruction_type, args)) = record {
  instruction_type = instruction_type;
  args = args;
}

abbrev pub instruction_members : InstructionContainer → Unit {0} × (ℕ × Args)
instruction_members x = (tt, (x.instruction_type, x.args))

module _ ⦃lib : Construct⦄ where
  unfoldable pub initialize_market_layout : Codec (ℕ × (ℕ × (ℕ × (ℕ × ℕ))))
  initialize_market_layout = int64ul ⨟ int64ul ⨟ int16ul ⨟ int64ul ⨟ int64ul

  unfoldable pub new_order_layout : Codec (ℕ × (ℕ × (ℕ × (ℕ × ℕ))))
  new_order_layout = int32ul ⨟ int64ul ⨟ int64ul ⨟ int32ul ⨟ int64ul

  unfoldable pub match_orders_layout : Codec (ℕ)
  match_orders_layout = int16ul

  unfoldable pub consume_events_layout : Codec (ℕ)
  consume_events_layout = int16ul

  unfoldable pub cancel_order_layout : Codec (ℕ × (Bytes × (Bytes × ℕ)))
  cancel_order_layout = int32ul ⨟ bytes 16 ⨟ bytes 32 ⨟ int8ul

  unfoldable pub cancel_order_by_client_id_layout : Codec (ℕ)
  cancel_order_by_client_id_layout = int64ul

  unfoldable pub new_order_v3_layout : Codec (ℕ × (ℕ × (ℕ × (ℕ × (ℕ × (ℕ × (ℕ × ℕ)))))))
  new_order_v3_layout =
      int32ul ⨟ int64ul ⨟ int64ul ⨟ int64ul ⨟ int32ul ⨟ int32ul ⨟ int64ul ⨟ int16ul

  unfoldable pub cancel_order_v2_layout : Codec (ℕ × Bytes)
  cancel_order_v2_layout = int32ul ⨟ bytes 16

  unfoldable pub cancel_order_by_client_id_v2_layout : Codec (ℕ)
  cancel_order_by_client_id_v2_layout = int64ul

  -- The Switch of INSTRUCTIONS_LAYOUT.
  unfoldable pub args_layout : ℕ → Codec Args
  args_layout instruction_type =
      if instruction_type == 0
      then choice initialize_market_args as_initialize_market initialize_market_layout
      else if instruction_type == 1
      then choice new_order_args as_new_order new_order_layout
      else if instruction_type == 2
      then choice match_orders_args as_match_orders match_orders_layout
      else if instruction_type == 3
      then choice consume_events_args as_consume_events consume_events_layout
      else if instruction_type == 4
      then choice cancel_order_args as_cancel_order cancel_order_layout
      else if instruction_type == 6
      then choice cancel_order_by_client_id_args as_cancel_order_by_client_id
          cancel_order_by_client_id_layout
      else if instruction_type == 10
      then choice new_order_v3_args as_new_order_v3 new_order_v3_layout
      else if instruction_type == 11
      then choice cancel_order_v2_args as_cancel_order_v2 cancel_order_v2_layout
      else if instruction_type == 12
      then choice cancel_order_by_client_id_v2_args as_cancel_order_by_client_id_v2
          cancel_order_by_client_id_v2_layout
      else choice (λ _. no_args) as_no_args lib.pass

  -- INSTRUCTIONS_LAYOUT, with the version 0.
  unfoldable pub instructions_layout : Codec InstructionContainer
  unfolding args_layout
  instructions_layout =
      named instruction_of instruction_members (lib.const 0 int8ul ⨟ lib.field int32ul args_layout)
