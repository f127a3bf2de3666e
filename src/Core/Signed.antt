-- ===== src/Core/Signed.antt =====
-- The drafts of pyserum/market/core.py keep a signature for whoever has to sign.
use pyserum.Base.{
  ℕ, ◌≡◌, ◌⊎◌, inl, inr, refl, none, List, [], ◌∷◌, ◌++◌, map, All, All-append, All-map, ok,
  Bool-cases,
}
use pyserum.Construct.{Construct}
use pyserum.Solana.{TransactionInstruction}
use pyserum.Wallets.{signers_in}
use pyserum.Net.Action.{lift, ◌>>=◌}
use pyserum.Net.Ensures.{Ensures, Ensures-ok, Ensures-any, Ensures-bind}
use pyserum.Layouts.OpenOrders.{open_orders_layout}
use pyserum.OpenOrders.{OpenOrdersAccount}
use pyserum.Core.Packages.{Packages}
use pyserum.Core.Defs.{MarketCore}
use pyserum.Core.Instruct.{make_create_account_instruction}
use pyserum.Core.Wrapping.{get_lamport_need_for_sol_wrapping}
use pyserum.Core.Signers.{SignedBy, after_any, make_place_order_instruction-SignedBy}
use pyserum.Core.Draft.{
  Draft, add, append_signer, fresh, OrderRequest, place_instruction, create_wrapped,
  initialize_wrapped, close_wrapped, prepare_new_oo_account, order_should_wrap_sol, draft_plain,
  draft_wrapped, prepare_order_transaction,
}

abbrev pub IsAmong : {Key : Type 0} → Key → List Key → Type 0
IsAmong key [] = ⊥
IsAmong key (k ∷ ks) = (key ≡ k) ⊎ IsAmong key ks

-- All the keys that have to sign one of the instructions are among the given ones.
abbrev pub SignsAll : {Key : Type 0} → List Key → List (TransactionInstruction Key) → Type 0
SignsAll ks instructions = All (λ i. All (λ k. IsAmong k ks) (signers_in i.keys)) instructions

module _ {A Key : Type 0} (key_of : A → Key) where
  pub IsAmong-append :
      (key : Key) (xs : List A) (y : A)
      → IsAmong key (map key_of xs)
      → IsAmong key (map key_of (xs ++ y ∷ []))
  IsAmong-append key [] y h = elim h [ ]
  IsAmong-append key (x ∷ xs) y (inl e) = inl e
  IsAmong-append key (x ∷ xs) y (inr h) = inr (IsAmong-append key xs y h)

  pub IsAmong-last : (xs : List A) (y : A) → IsAmong (key_of y) (map key_of (xs ++ y ∷ []))
  IsAmong-last [] y = inl refl
  IsAmong-last (x ∷ xs) y = inr (IsAmong-last xs y)

  pub SignsAll-append :
      (instructions : List (TransactionInstruction Key)) (xs : List A) (y : A)
      → SignsAll (map key_of xs) instructions
      → SignsAll (map key_of (xs ++ y ∷ [])) instructions
  SignsAll-append instructions xs y h =
      All-map (λ i. All-map (λ k. IsAmong-append k xs y) (signers_in i.keys)) instructions h

module _ (packages : Packages) ⦃lib : Construct⦄ where
  open packages use {keys, programs, wallets, floats, client}
  open keys use {PublicKey, same_key}
  open wallets use {
    create_account, create_account_signers, initialize_account_signers, close_account_signers,
  }
  open client use {World, Keypair, owner_key}

  -- A draft whose signers sign all that its instructions ask for, with the owner among them.
  pub record IsSigned (owner : Keypair) (draft : Draft PublicKey Keypair) : Type 0 where
    pub signed : SignsAll (map owner_key draft.signers) draft.transaction
    pub owner_signs : IsAmong (owner_key owner) (map owner_key draft.signers)

  add-IsSigned :
      (owner : Keypair) (draft : Draft PublicKey Keypair)
      (instruction : TransactionInstruction PublicKey)
      → IsSigned owner draft
      → All (λ k. IsAmong k (map owner_key draft.signers)) (signers_in instruction.keys)
      → IsSigned owner (add draft instruction)
  add-IsSigned owner draft instruction h hi = record {
    signed = All-append _ draft.transaction (instruction ∷ []) h.signed (hi, tt);
    owner_signs = h.owner_signs;
  }

  append_signer-IsSigned :
      (owner : Keypair) (draft : Draft PublicKey Keypair) (signer : Keypair)
      → IsSigned owner draft
      → IsSigned owner (append_signer draft signer)
  append_signer-IsSigned owner draft signer h = record {
    signed = SignsAll-append owner_key draft.transaction draft.signers signer h.signed;
    owner_signs = IsAmong-append owner_key (owner_key owner) draft.signers signer h.owner_signs;
  }

  -- An instruction that the owner alone has to sign.
  pub owner-IsSigned :
      (owner : Keypair) (draft : Draft PublicKey Keypair)
      (instruction : TransactionInstruction PublicKey)
      → IsSigned owner draft
      → SignedBy (owner_key owner) instruction
      → IsSigned owner (add draft instruction)
  owner-IsSigned owner draft instruction h by =
      add-IsSigned owner draft instruction h (rw by (h.owner_signs, tt))

  -- An instruction that the owner and a new signer have to sign.
  pair-IsSigned :
      (owner : Keypair) (draft : Draft PublicKey Keypair) (signer : Keypair)
      (instruction : TransactionInstruction PublicKey)
      → IsSigned owner draft
      → signers_in instruction.keys ≡ owner_key owner ∷ owner_key signer ∷ []
      → IsSigned owner (add (append_signer draft signer) instruction)
  pair-IsSigned owner draft signer instruction h by =
      let h' = append_signer-IsSigned owner draft signer h in
      add-IsSigned owner (append_signer draft signer) instruction h'
        (rw by (h'.owner_signs, (IsAmong-last owner_key draft.signers signer, tt)))

  -- The opening of an account for wrapped SOL.
  pub wrap-IsSigned :
      (owner : Keypair) (draft : Draft PublicKey Keypair) (wrapped : Keypair)
      (created : TransactionInstruction PublicKey)
      → IsSigned owner draft
      → signers_in created.keys ≡ owner_key owner ∷ owner_key wrapped ∷ []
      → IsSigned owner (
          add
            (add (append_signer draft wrapped) created)
            (initialize_wrapped packages (owner_key owner) (owner_key wrapped)))
  wrap-IsSigned owner draft wrapped made h by =
      let created = pair-IsSigned owner draft wrapped made h by in
      add-IsSigned owner _ (initialize_wrapped packages (owner_key owner) (owner_key wrapped))
        created (rw (initialize_account_signers) tt)

  make_create_account_instruction_signers :
      (owner new : PublicKey) (lamports : ℕ) (program_id : PublicKey)
      → Ensures
          (λ i. signers_in i.keys ≡ owner ∷ new ∷ [])
          (make_create_account_instruction packages owner new lamports program_id)
  unfolding make_create_account_instruction
  make_create_account_instruction_signers owner new lamports program_id =
      after_any (λ i. signers_in i.keys ≡ owner ∷ new ∷ []) open_orders_layout.sizeof _
        (λ space.
          Ensures-ok (λ i. signers_in i.keys ≡ owner ∷ new ∷ []) (create_account _)
            (create_account_signers _))

  pub prepare_new_oo_account-IsSigned :
      (core : MarketCore PublicKey) (owner : Keypair) (balance_needed : ℕ)
      (draft : Draft PublicKey Keypair) (w : World)
      → IsSigned owner draft
      → Ensures
          (λ (r : PublicKey × Draft PublicKey Keypair). IsSigned owner r.1)
          (prepare_new_oo_account packages core owner balance_needed draft w).0
  unfolding prepare_new_oo_account
  prepare_new_oo_account-IsSigned core owner balance_needed draft w h =
      let address = owner_key owner in
      let Q = λ (r : PublicKey × Draft PublicKey Keypair). IsSigned owner r.1 in
      let create = λ (new : Keypair).
        make_create_account_instruction packages address (owner_key new) balance_needed
          core.state.program_id in
      let finish = λ (new : Keypair) (i : TransactionInstruction PublicKey).
        lift {W = World} (ok (owner_key new, append_signer (add draft i) new)) in
      Ensures-bind (λ (_ : Keypair). Unit {0}) Q (fresh packages)
        (λ new. lift (create new) >>= finish new) w tt
        λ new w' _.
          Ensures-bind (λ i. signers_in i.keys ≡ address ∷ owner_key new ∷ []) Q (lift (create new))
            (finish new) w'
            (make_create_account_instruction_signers address (owner_key new) balance_needed
              core.state.program_id)
            (λ instruction w'' by. pair-IsSigned owner draft new instruction h by)

  pub place_instruction-SignedBy :
      (core : MarketCore PublicKey) (request : OrderRequest packages) (payer account : PublicKey)
      → Ensures
          (SignedBy (owner_key request.owner))
          (place_instruction packages core request payer account)
  unfolding place_instruction
  place_instruction-SignedBy core request payer account =
      make_place_order_instruction-SignedBy packages core payer (owner_key request.owner)
        request.order_type request.side request.limit_price request.max_quantity request.client_id
        account none

  draft_plain-IsSigned :
      (core : MarketCore PublicKey) (request : OrderRequest packages) (account : PublicKey)
      (draft : Draft PublicKey Keypair) (w : World)
      → IsSigned request.owner draft
      → Ensures (IsSigned request.owner) (draft_plain packages core request account draft w).0
  unfolding draft_plain
  draft_plain-IsSigned core request account draft w h =
      Ensures-bind (SignedBy (owner_key request.owner)) (IsSigned request.owner)
        (lift (place_instruction packages core request request.payer account))
        (λ place. lift (ok (add draft place))) w
        (place_instruction-SignedBy core request request.payer account)
        (λ place w' by. owner-IsSigned request.owner draft place h by)

  draft_wrapped-IsSigned :
      (core : MarketCore PublicKey) (request : OrderRequest packages)
      (accounts : List (OpenOrdersAccount PublicKey)) (account : PublicKey)
      (draft : Draft PublicKey Keypair) (w : World)
      → IsSigned request.owner draft
      → Ensures
          (IsSigned request.owner)
          (draft_wrapped packages core request accounts account draft w).0
  unfolding draft_wrapped
  draft_wrapped-IsSigned core request accounts account draft w h =
      let owner = owner_key request.owner in
      let Q = IsSigned request.owner in
      let need =
        get_lamport_need_for_sol_wrapping floats request.limit_price request.max_quantity
          request.side accounts in
      let opened = λ (wrapped : Keypair) (created : TransactionInstruction PublicKey).
        add (add (append_signer draft wrapped) created)
          (initialize_wrapped packages owner (owner_key wrapped)) in
      let finish = λ (wrapped : Keypair) (created place : TransactionInstruction PublicKey).
        lift {W = World} (
          ok (
            add (add (opened wrapped created) place)
              (close_wrapped packages owner (owner_key wrapped)))) in
      let put = λ (wrapped : Keypair) (created : TransactionInstruction PublicKey).
        lift (place_instruction packages core request (owner_key wrapped) account)
        >>= finish wrapped created in
      let create = λ (wrapped : Keypair) (lamports : ℕ).
        create_wrapped packages owner (owner_key wrapped) lamports in
      let make =
        λ (wrapped : Keypair) (lamports : ℕ). lift (create wrapped lamports) >>= put wrapped in
      Ensures-bind (λ (_ : Keypair). Unit {0}) Q (fresh packages)
        (λ wrapped. lift need >>= make wrapped) w tt
        λ wrapped w' _.
          Ensures-bind (λ (_ : ℕ). Unit {0}) Q (lift need) (make wrapped) w' (Ensures-any need)
            λ lamports w'' _.
              Ensures-bind (λ i. signers_in i.keys ≡ owner ∷ owner_key wrapped ∷ []) Q
                (lift (create wrapped lamports)) (put wrapped) w''
                (Ensures-ok _ (create wrapped lamports) (create_account_signers _))
                λ created w3 made.
                  Ensures-bind (SignedBy owner) Q
                    (lift (place_instruction packages core request (owner_key wrapped) account))
                    (finish wrapped created) w3
                    (place_instruction-SignedBy core request (owner_key wrapped) account)
                    λ place w4 by.
                      let initialized = wrap-IsSigned request.owner draft wrapped created h made in
                      let placed =
                        owner-IsSigned request.owner (opened wrapped created) place initialized
                          by in
                      owner-IsSigned request.owner (add (opened wrapped created) place)
                        (close_wrapped packages owner (owner_key wrapped)) placed
                        (close_account_signers _)

  -- Whatever the world, if `_prepare_order_transaction` does not raise, it keeps the invariant that
  -- the signers, with the owner among them, sign all that the transaction's instructions ask for.
  pub prepare_order_transaction-IsSigned :
      (core : MarketCore PublicKey) (request : OrderRequest packages)
      (accounts : List (OpenOrdersAccount PublicKey)) (account : PublicKey)
      (draft : Draft PublicKey Keypair) (w : World)
      → IsSigned request.owner draft
      → Ensures
          (IsSigned request.owner)
          (prepare_order_transaction packages core request accounts account draft w).0
  unfolding prepare_order_transaction
  prepare_order_transaction-IsSigned core request accounts account draft w h =
      elim (Bool-cases (same_key request.payer (owner_key request.owner))) [
        | inl own ↦ rw own tt
        | inr other ↦ elim (Bool-cases (order_should_wrap_sol packages core request.side)) [
          | inl wrap ↦
              rw (other, wrap) (draft_wrapped-IsSigned core request accounts account draft w h)
          | inr plain ↦ rw (other, plain) (draft_plain-IsSigned core request account draft w h)
        ]
      ]
