-- ===== src/Tests/Server.antt =====
-- A small server with its client, and texts, for the tests. A text stands for a list of numbers in
-- unary; the world counts the keys that were drawn.
use Prim.Native.Char.{code}
use Prim.Native.String.{String}
use pyserum.Base.{
  ℕ, zero, suc, ◌+◌, ◌≡◌, refl, true, false, [], ◌∷◌, length, replicate, Result, ok, err, ◌==◌,
  if◌then◌else◌, type_error, value_error, construct_error, ltb, ◌^◌, ◌&&◌, ◌++◌, arith,
}
use pyserum.Base.Bytes.{Bytes, low_bytes}
use pyserum.Net.Json.{Json, number, string}
use pyserum.Net.Client.{Texts, Client}
use pyserum.Solana.{AccountMeta, TransactionInstruction}
use pyserum.Wallets.{Wallets, CreateAccountParams, signers_in}
use pyserum.Core.Packages.{Packages}
use pyserum.Tests.Concrete.{test_keys, test_programs, test_floats}

abbrev unary : ℕ → String → String
unary zero s = String.◌∷◌ "b" s
unary (suc n) s = String.◌∷◌ "a" (unary n s)

abbrev write_numbers : Bytes → String
write_numbers [] = String.[]
write_numbers (b ∷ bs) = unary b (write_numbers bs)

abbrev first_up : Bytes → Bytes
first_up [] = []
first_up (b ∷ bs) = suc b ∷ bs

abbrev read_numbers : String → Bytes
read_numbers String.[] = []
read_numbers (String.◌∷◌ c s) =
    if code c == 97 then first_up (read_numbers s) else 0 ∷ read_numbers s

read_unary : (n : ℕ) (s : String) → read_numbers (unary n s) ≡ n ∷ read_numbers s
read_unary zero s = refl
read_unary (suc n) s = rw (read_unary n s) refl

pub read_numbers-write_numbers : (b : Bytes) → read_numbers (write_numbers b) ≡ b
read_numbers-write_numbers [] = refl
read_numbers-write_numbers (b ∷ bs) =
    rw (read_unary b (write_numbers bs), read_numbers-write_numbers bs) refl

abbrev key_from : Bytes → ℕ
key_from [] = 0
key_from (b ∷ bs) = b

abbrev read_test_key : Json → Result ℕ
read_test_key (string s) = ok (key_from (read_numbers s))
read_test_key _ = err type_error

abbrev text_of : ℕ → String
text_of k = unary k String.[]

pub key_of_text : (k : ℕ) → read_test_key (string (text_of k)) ≡ ok k
key_of_text k = rw (read_unary k String.[]) refl

pub bytes_of_text :
    (k : ℕ) → key_from (read_numbers (text_of k)) ∷ replicate 31 0 ≡ k ∷ replicate 31 0
bytes_of_text k = rw (read_unary k String.[]) refl

pub base64_of : (b : Bytes) → ok (read_numbers (write_numbers b)) ≡ ok b
base64_of b = rw (read_numbers-write_numbers b) refl

abbrev pub test_texts : Texts test_keys
test_texts = record {
  text_of_key = text_of;
  key_bytes_of_text = (λ s. key_from (read_numbers s) ∷ replicate 31 0);
  read_key = read_test_key;
  read_base64 = (λ s. ok (read_numbers s));
  write_base64 = write_numbers;
  read_int = (λ s. err value_error);
  read_key-string = key_of_text;
  key_bytes_of_text-text_of_key = bytes_of_text;
  read_base64-write_base64 = base64_of;
}

abbrev signer : ℕ → AccountMeta ℕ
signer k = record { pubkey = k; is_signer = true; is_writable = true }

abbrev plain : ℕ → AccountMeta ℕ
plain k = record { pubkey = k; is_signer = false; is_writable = true }

-- The instruction to create an account, with its numbers of 8 bytes each.
abbrev pub test_created : CreateAccountParams ℕ → TransactionInstruction ℕ
test_created p = record {
  keys = signer p.from_pubkey ∷ signer p.new_account_pubkey ∷ [];
  program_id = 0;
  data_bytes = low_bytes 8 p.lamports ++ low_bytes 8 p.space;
}

abbrev test_create_account : CreateAccountParams ℕ → Result (TransactionInstruction ℕ)
test_create_account p =
    if ltb p.lamports (256 ^ 8) && ltb p.space (256 ^ 8)
    then ok (test_created p)
    else err construct_error

pub test_create_account_signers :
    (p : CreateAccountParams ℕ) (i : TransactionInstruction ℕ)
    → test_create_account p ≡ ok i
    → signers_in i.keys ≡ p.from_pubkey ∷ p.new_account_pubkey ∷ []
test_create_account_signers p i made = ground (arith, made)

abbrev pub test_wallets : Wallets test_keys
test_wallets = record {
  wrapped_sol_mint = 77;
  account_len = 165;
  create_account = test_create_account;
  initialize_account = (λ p. record {
    keys = plain p.account ∷ plain p.mint ∷ plain p.owner ∷ [];
    program_id = p.program_id;
    data_bytes = 1 ∷ [];
  });
  close_account = (λ p. record {
    keys = plain p.account ∷ plain p.dest ∷ signer p.owner ∷ [];
    program_id = p.program_id;
    data_bytes = 9 ∷ [];
  });
  create_program_address = (λ seeds program_id. ok (program_id + 1));
  equals_method = (λ k. false);
  dex_version_1 = 1;
  dex_version_1' = 2;
  dex_version_2 = 3;
  create_account_signers = test_create_account_signers;
  initialize_account_signers = (λ p. refl);
  close_account_signers = (λ p. refl);
  no_method_is_a_key = (λ k. refl);
}

-- What the server answers. A key's pair is the key itself.
pub record Answers : Type 0 where
  pub account : ℕ → Json
  pub program_accounts : Json
  pub rent : Json

abbrev pub serve : Answers → Client test_keys
serve answers = record {
  World = ℕ;
  Keypair = ℕ;
  Commitment = ℕ;
  TxOpts = ℕ;
  recent = 0;
  owner_key = (λ k. k);
  new_keypair = (λ w. (w, suc w));
  get_account_info = (λ k w. (ok (answers.account k), w));
  get_program_accounts = (λ args w. (ok answers.program_accounts, w));
  get_minimum_balance_for_rent_exemption = (λ size w. (ok answers.rent, w));
  send_transaction = (λ transaction signers opts w. (ok (number (length signers)), w));
}

abbrev pub packages_with : Answers → Packages
packages_with answers = record {
  keys = test_keys;
  programs = test_programs;
  wallets = test_wallets;
  floats = test_floats;
  texts = test_texts;
  client = serve answers;
}
