-- ===== src/MultiSig/Data.antt =====
-- The data of packages/ergo-multi-sig/lib/types.ts: the shapes of hints in JSON, what is published
-- of them, and the payloads of the messages.
use sign_protocols.Prelude.{ℕ, String, Option, none, some, List, [], ◌∷◌}
use sign_protocols.Prelude.Maps.{Entries}
use sign_protocols.Json.{
  ToJson, Json, Elems, Fields, num, minus, str, arr, obj, nil, cons, end, field,
}

-- A key that is missing in an array of keys is `undefined`, here `none`.
pub record Pubkey : Type 0 where
  pub op : String
  pub h : Option String

pub record SingleCommitmentJson : Type 0 where
  pub hint : String
  pub pubkey : Pubkey
  pub kind : String
  pub a : String
  pub secret : Option String
  pub position : String

pub record SingleProofJson : Type 0 where
  pub hint : String
  pub pubkey : Pubkey
  pub challenge : String
  pub proof : String
  pub position : String

pub record CommitmentJson : Type 0 where
  pub secret_hints : Entries (List SingleProofJson)
  pub public_hints : Entries (List SingleCommitmentJson)

pub record SingleCommitment : Type 0 where
  pub a : String
  pub position : String

pub record SingleProof : Type 0 where
  pub proof : String
  pub position : String

-- The keys are the indices of a transaction's inputs.
abbrev pub PublishedCommitment : Type 0
PublishedCommitment = Entries (List SingleCommitment)

abbrev pub PublishedProof : Type 0
PublishedProof = Entries (List SingleProof)

-- An index that `indexOf` did not find is -1, here `none`.
pub record InitiateSignPayload : Type 0 where
  pub tx_id : String
  pub committed_inds : List (Option ℕ)
  pub cmts : List PublishedCommitment
  pub simulated : List PublishedCommitment
  pub simulated_proofs : List PublishedProof

-- The payloads of the five kinds of message.
pub data MultiSigPayload : Type 0 where
  generate_commitment : String → MultiSigPayload
  commitment : String → PublishedCommitment → MultiSigPayload
  initiate_sign : InitiateSignPayload → MultiSigPayload
  sign : PublishedProof → String → MultiSigPayload
  signed_tx : String → MultiSigPayload

abbrev elems : {A : Type 0} → (A → Json) → List A → Elems
elems f [] = nil
elems f (x ∷ xs) = cons (f x) (elems f xs)

abbrev fields : {A : Type 0} → (A → Json) → Entries A → Fields
fields f [] = end
fields f ((k, v) ∷ m) = field k (f v) (fields f m)

abbrev index_json : Option ℕ → Json
index_json none = minus 1
index_json (some i) = num i

abbrev single_commitment_json : SingleCommitment → Json
single_commitment_json c = obj (field "a" (str c.a) (field "position" (str c.position) end))

abbrev single_proof_json : SingleProof → Json
single_proof_json p = obj (field "proof" (str p.proof) (field "position" (str p.position) end))

abbrev commitment_json : PublishedCommitment → Json
commitment_json c = obj (fields (λ cs. arr (elems single_commitment_json cs)) c)

abbrev proof_json : PublishedProof → Json
proof_json p = obj (fields (λ ps. arr (elems single_proof_json ps)) p)

abbrev payload_json : MultiSigPayload → Json
payload_json (generate_commitment tx_id) = obj (field "txId" (str tx_id) end)
payload_json (commitment tx_id c) =
    obj (field "txId" (str tx_id) (field "commitment" (commitment_json c) end))
payload_json (initiate_sign p) = obj (
    field "txId" (str p.tx_id) (
      field "committedInds" (arr (elems index_json p.committed_inds)) (
        field "cmts" (arr (elems commitment_json p.cmts)) (
          field "simulated" (arr (elems commitment_json p.simulated))
            (field "simulatedProofs" (arr (elems proof_json p.simulated_proofs)) end)))))
payload_json (sign proof tx_id) =
    obj (field "proof" (proof_json proof) (field "txId" (str tx_id) end))
payload_json (signed_tx tx_bytes) = obj (field "txBytes" (str tx_bytes) end)

instance abbrev pub multi_sig_payload_json : ToJson MultiSigPayload
multi_sig_payload_json = record { to_json = payload_json }

abbrev pub generate_commitment_message : String
generate_commitment_message = "generateCommitment"

abbrev pub commitment_message : String
commitment_message = "commitment"

abbrev pub initiate_sign_message : String
initiate_sign_message = "initiateSign"

abbrev pub sign_message : String
sign_message = "sign"

abbrev pub signed_tx_message : String
signed_tx_message = "signedTx"

-- A guard's key, with its peer id while it is active.
pub record Signer : Type 0 where
  pub id : Option String
  pub pub_key : String

-- the time of a turn, in milliseconds
abbrev pub turn_time : ℕ
turn_time = 180000

abbrev pub challenge_len : ℕ
challenge_len = 48
