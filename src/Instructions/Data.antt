-- ===== src/Instructions/Data.antt =====
-- The data of an instruction: what `instruct` builds, `parse_and_validate_instruction` accepts.
use pyserum.Base.{
  ℕ, ◌^◌, ◌<◌, ◌≤◌, ◌≡◌, refl, Option, some, List, [], ◌++◌, append-nil, length, ok, arith,
}
use pyserum.Base.Bytes.{Bytes, low_bytes}
use pyserum.Construct.{Codec, Construct}
use pyserum.Construct.Parses.{
  ◌⨟ₚ◌, ◌⨟ᵦ◌, named-Parses, named-Builds, const-Parses, const-Builds, uint-Parses, uint-Builds,
  field-Parses, field-Builds,
}
use pyserum.Construct.RoundTrips.{RoundTrips}
use pyserum.Layouts.Slab.{choice}
use pyserum.Layouts.SlabEncoding.{choice-Parses}
use pyserum.Solana.{PublicKeys, Programs, AccountMeta}
use pyserum.Instructions.Layout.{
  Args, instruction_of, instruction_members, args_layout, instructions_layout,
}
use pyserum.Instructions.Build.{
  InstructionType, type_number, account_count, instruct, initialize_market_type, new_order_type,
  match_order_type, consume_events_type, cancel_order_type, settle_funds_type,
  cancel_order_by_client_id_type, new_order_v3_type, cancel_order_v2_type,
  cancel_order_by_client_id_v2_type,
}
use pyserum.Instructions.Decode.{parse_and_validate_instruction}

pub choice-RoundTrips :
    {A B : Type 0} (to : A → B) (from : B → Option A) {c : Codec A} {a : A}
    → from (to a) ≡ some a
    → RoundTrips c a
    → RoundTrips (choice to from c) (to a)
choice-RoundTrips to from found h = record {
  encoding = h.encoding;
  builds = record { run = rw found h.builds.run };
  parses = choice-Parses to from h.parses;
}

module _ ⦃lib : Construct⦄ where
  data-RoundTrips :
      (tag : ℕ) (args : Args)
      → tag < 256 ^ 4
      → RoundTrips (args_layout tag) args
      → RoundTrips instructions_layout (record { instruction_type = tag; args = args })
  unfolding instructions_layout
  data-RoundTrips tag args h hargs = record {
    encoding = low_bytes 1 0 ++ (low_bytes 4 tag ++ hargs.encoding);
    builds = named-Builds instruction_of instruction_members (
        const-Builds 0 (uint-Builds 1 0 (omega arith))
        ⨟ᵦ field-Builds args_layout (uint-Builds 4 tag h) hargs.builds);
    parses = named-Parses instruction_of instruction_members (
        const-Parses 0 (uint-Parses 1 0 (omega arith))
        ⨟ₚ field-Parses args_layout (uint-Parses 4 tag h) hargs.parses);
  }

type_number-lt : (type : InstructionType) → type_number type < 256 ^ 4
type_number-lt initialize_market_type = omega arith
type_number-lt new_order_type = omega arith
type_number-lt match_order_type = omega arith
type_number-lt consume_events_type = omega arith
type_number-lt cancel_order_type = omega arith
type_number-lt settle_funds_type = omega arith
type_number-lt cancel_order_by_client_id_type = omega arith
type_number-lt new_order_v3_type = omega arith
type_number-lt cancel_order_v2_type = omega arith
type_number-lt cancel_order_by_client_id_v2_type = omega arith

module _ (keys : PublicKeys) (programs : Programs keys) ⦃lib : Construct⦄ where
  open keys use {PublicKey}

  -- An instruction whose arguments its type's layout can build, with enough accounts, is built, and
  -- its data parses to these arguments.
  pub instruct-parses :
      (type : InstructionType) (args : Args) (program_id : PublicKey)
      (accounts : List (AccountMeta PublicKey))
      → RoundTrips (args_layout (type_number type)) args
      → account_count type ≤ length accounts
      → (built : Bytes) × (instruct keys programs type args program_id accounts
          ≡ ok (record { keys = accounts; program_id = program_id; data_bytes = built }))
        × (parse_and_validate_instruction keys programs
              (record { keys = accounts; program_id = program_id; data_bytes = built })
              type
            ≡ ok args)
  unfolding instruct parse_and_validate_instruction
  instruct-parses type args program_id accounts h enough =
      let whole = data-RoundTrips (type_number type) args (type_number-lt type) h in
      (
        whole.encoding,
        (rw whole.builds.run refl),
        rw
            (
              programs.enough_keys (length accounts) (account_count type) enough,
              (rw append-nil at (whole.parses.run [])),
              programs.right_type (type_number type),
            )
            refl,
      )
