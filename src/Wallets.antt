-- ===== src/Wallets.antt =====
-- The system program and the token program of the solana and spl packages, as far as
-- pyserum/market/core.py uses them: parameters, with the documented signers of their instructions.
use pyserum.Base.{ℕ, ◌≡◌, Bool, true, false, List, [], ◌∷◌, Result, ok}
use pyserum.Base.Bytes.{Bytes}
use pyserum.Solana.{PublicKeys, AccountMeta, TransactionInstruction}

pub record CreateAccountParams (Key : Type 0) : Type 0 where
  pub from_pubkey : Key
  pub new_account_pubkey : Key
  pub lamports : ℕ
  pub space : ℕ
  pub program_id : Key

pub record InitializeAccountParams (Key : Type 0) : Type 0 where
  pub account : Key
  pub mint : Key
  pub owner : Key
  pub program_id : Key

pub record CloseAccountParams (Key : Type 0) : Type 0 where
  pub account : Key
  pub owner : Key
  pub dest : Key
  pub program_id : Key

-- The keys that have to sign an instruction.
abbrev pub signers_in : {Key : Type 0} → List (AccountMeta Key) → List Key
signers_in [] = []
signers_in (account ∷ accounts) = elim account.is_signer [
  | true ↦ account.pubkey ∷ signers_in accounts
  | false ↦ signers_in accounts
]

-- `create_account` raises where a number does not fit into the instruction's data.
-- `equals_method k` is `m == k` for a bound method m, which is no key.
pub record Wallets (keys : PublicKeys) : Type 0 where
  pub wrapped_sol_mint : keys.PublicKey
  pub account_len : ℕ
  pub create_account :
      CreateAccountParams keys.PublicKey → Result (TransactionInstruction keys.PublicKey)
  pub initialize_account :
      InitializeAccountParams keys.PublicKey → TransactionInstruction keys.PublicKey
  pub close_account : CloseAccountParams keys.PublicKey → TransactionInstruction keys.PublicKey
  pub create_program_address : List Bytes → keys.PublicKey → Result keys.PublicKey
  pub equals_method : keys.PublicKey → Bool
  pub dex_version_1 : keys.PublicKey
  pub dex_version_1' : keys.PublicKey
  pub dex_version_2 : keys.PublicKey
  pub create_account_signers :
      (p : CreateAccountParams keys.PublicKey) (i : TransactionInstruction keys.PublicKey)
      → create_account p ≡ ok i
      → signers_in i.keys ≡ p.from_pubkey ∷ p.new_account_pubkey ∷ []
  pub initialize_account_signers :
      (p : InitializeAccountParams keys.PublicKey) → signers_in (initialize_account p).keys ≡ []
  pub close_account_signers :
      (p : CloseAccountParams keys.PublicKey) → signers_in (close_account p).keys ≡ p.owner ∷ []
  pub no_method_is_a_key : (k : keys.PublicKey) → equals_method k ≡ false
