-- ===== src/Solana.antt =====
-- The solana and spl packages as far as pyserum uses them: parameters, with what the code relies on
-- as laws.
use pyserum.Base.{
  ℕ, ◌≡◌, ◌≢◌, ◌≤◌, ◌<◌, ◌↔◌, Bool, true, List, length, Result, ok, err, value_error,
}
use pyserum.Base.Bytes.{Bytes}

-- solana.publickey.PublicKey. `public_key` is its constructor at a byte string of 32 bytes, as all
-- the layouts hand it, and `key_bytes` its conversion to `bytes`.
pub record PublicKeys : Type 1 where
  pub PublicKey : Type 0
  pub public_key : Bytes → PublicKey
  pub key_bytes : PublicKey → Bytes
  pub same_key : PublicKey → PublicKey → Bool
  pub length-key_bytes : (k : PublicKey) → length (key_bytes k) ≡ 32
  pub public_key-key_bytes : (k : PublicKey) → public_key (key_bytes k) ≡ k
  pub same_key_iff : (j k : PublicKey) → (same_key j k ≡ true) ↔ (j ≡ k)

-- solana.transaction's named tuples, with the fields that pyserum reads and sets.
pub record AccountMeta (Key : Type 0) : Type 0 where
  pub pubkey : Key
  pub is_signer : Bool
  pub is_writable : Bool

abbrev pub meta : {Key : Type 0} → Key → Bool → Bool → AccountMeta Key
meta pubkey is_signer is_writable = record {
  pubkey = pubkey;
  is_signer = is_signer;
  is_writable = is_writable;
}

pub record TransactionInstruction (Key : Type 0) : Type 0 where
  pub keys : List (AccountMeta Key)
  pub program_id : Key
  pub data_bytes : Bytes

-- The packages' constants, the default program, a key that is parsed from text, and the two checks of
-- solana.utils.validate: there must be at least the expected number of keys, and the expected type.
pub record Programs (keys : PublicKeys) : Type 0 where
  pub default_dex_program : keys.PublicKey
  pub token_program : keys.PublicKey
  pub rent : keys.PublicKey
  pub validate_instruction_keys : ℕ → ℕ → Result (Unit {0})
  pub validate_instruction_type : ℕ → ℕ → Result (Unit {0})
  pub enough_keys : (n expected : ℕ) → expected ≤ n → validate_instruction_keys n expected ≡ ok tt
  pub too_few_keys :
      (n expected : ℕ) → n < expected → validate_instruction_keys n expected ≡ err value_error
  pub right_type : (n : ℕ) → validate_instruction_type n n ≡ ok tt
  pub wrong_type :
      (n expected : ℕ) → n ≢ expected → validate_instruction_type n expected ≡ err value_error
