-- ===== src/MultiSig/Ergo.antt =====
-- What the handler takes from ergo-lib-wasm-nodejs and from Node. Bytes are kept as the texts that
-- `Buffer` reads and writes, in hex or base64.
use sign_protocols.Prelude.{ℕ, String, Bool, List}
use sign_protocols.Exec.{Result}
use sign_protocols.MultiSig.Data.{CommitmentJson}

-- `Reduced` is a reduced transaction, `Bag` a hints bag of a transaction, and `Hints` one of an
-- input. `from_json` reads what `JSON.stringify` makes of the shape. The functions that draw random
-- numbers take them as their first argument.
pub record ErgoLib : Type 1 where
  pub Reduced : Type 0
  pub Box : Type 0
  pub Boxes : Type 0
  pub Bag : Type 0
  pub Hints : Type 0
  pub Propositions : Type 0
  pub Context : Type 0
  pub Transaction : Type 0
  pub SecretKey : Type 0
  pub Wallet : Type 0
  pub reduced_id : Reduced → String
  pub reduced_inputs_len : Reduced → ℕ
  pub transaction_id : Transaction → String
  pub transaction_inputs_len : Transaction → ℕ
  pub sigma_parse_bytes : String → Result Transaction
  pub sigma_serialize_bytes : Transaction → String
  pub empty_bag : Bag
  pub add_hints_for_input : ℕ → Hints → Bag → Bag
  pub all_hints_for_input : ℕ → Bag → Hints
  pub from_json : CommitmentJson → Result Bag
  pub to_json : Bag → CommitmentJson
  pub empty_boxes : Boxes
  pub add_box : Box → Boxes → Boxes
  pub no_propositions : Propositions
  pub add_proposition_from_byte : String → Propositions → Result Propositions
  pub dlog_from_bytes : String → Result SecretKey
  pub address_content : SecretKey → String
  pub from_secrets : List SecretKey → Wallet
  pub generate_commitments : ℕ → Wallet → Reduced → Result Bag
  pub sign_multi : ℕ → Wallet → Reduced → Bag → Result Transaction
  pub extract_hints :
      Transaction → Context → Boxes → Boxes → Propositions → Propositions → Result Bag
  pub verify_tx_input_proof : ℕ → Context → Transaction → Boxes → Boxes → Result Bool
