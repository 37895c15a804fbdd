-- ===== src/MultiSig/Held/Messages.antt =====
-- What a message and a call of `sign` do while the semaphore is taken.
use sign_protocols.Prelude.{
  inl, inr, Bool-cases, is_empty, ℕ, String, refl, Option, some, List, Bool, true, false, ◌==◌,
}
use sign_protocols.Exec.Triples.{
  Gives, Anything, Gives-bind, Gives-lift_bind, Gives-read, Gives-skip, Gives-if, Gives-caught,
}
use sign_protocols.Communicator.{CommunicationMessage}
use sign_protocols.Communicator.Handling.{handle_message-ends}
use sign_protocols.Tss.Turns.{is_turn}
use sign_protocols.MultiSig.Data.{
  InitiateSignPayload, MultiSigPayload, PublishedCommitment, PublishedProof, generate_commitment,
  commitment, initiate_sign, sign, signed_tx, generate_commitment_message, commitment_message,
  initiate_sign_message, sign_message, signed_tx_message, multi_sig_payload_json,
}
use sign_protocols.MultiSig.Ergo.{ErgoLib}
use sign_protocols.MultiSig.State.{MultiSig, MultiSigHost}
use sign_protocols.MultiSig.Turns.{key_at, get_current_turn_ind, peers_must_be_initialized}
use sign_protocols.MultiSig.Queue
use sign_protocols.MultiSig.Queue.{
  get_pk, get_prover, get_queued_transaction, commit_to, commit_if_set, commit_if_queued,
  commit_with,
}
use sign_protocols.MultiSig.Commit.{
  commit_if_ready, take_commitment, commit_in_turn, handle_commitment,
}
use sign_protocols.MultiSig.Signing
use sign_protocols.MultiSig.Signing.{
  sign_if_ready, answer_initiate, take_signed_tx, handle_signed_tx, add_if_ready, take_proof,
  handle_sign,
}
use sign_protocols.MultiSig.Dispatch.{dispatch, process_message, receive}
use sign_protocols.MultiSig.Held.{
  Held, Held-generate_commitment, Held-get_current_turn_id, Held-get_queued_transaction,
  Held-is_my_turn, Held-peers_must_be_initialized,
}

module _ {E : ErgoLib} (host : MultiSigHost E) (s0 : MultiSig E) where
  Held-commit_in_turn :
      (tx_id : String) (c : PublishedCommitment) (signature : String) (index : ℕ) (mine : Bool)
      → Gives (Held s0) Anything (commit_in_turn host tx_id c signature index mine)
  unfolding commit_in_turn take_commitment
  Held-commit_in_turn tx_id c signature index false =
      Gives-bind (Held-get_current_turn_id host s0) λ _ _. Gives-skip
  Held-commit_in_turn tx_id c signature index true =
      Gives-if (tx_id == "") (λ _. Gives-skip)
        λ _. Gives-bind (Gives-read (λ s. s.guards_pk)) λ guards_pk _.
          Gives-lift_bind (key_at guards_pk (some index)) λ pub_key.
            (Held-get_queued_transaction host s0) tx_id
              (λ t. commit_if_ready host tx_id c signature pub_key t t.tx t.secret)

  Held-handle_commitment :
      (tx_id : String) (c : PublishedCommitment) (signature : String) (index : ℕ)
      → Gives (Held s0) Anything (handle_commitment host tx_id c signature index)
  unfolding handle_commitment
  Held-handle_commitment tx_id c signature index =
      Gives-bind (Held-is_my_turn host s0)
        λ mine _. Held-commit_in_turn tx_id c signature index mine

  Held-initiate_sign :
      (sender : String) (p : InitiateSignPayload) (index : ℕ)
      → Gives (Held s0) Anything (Signing.initiate_sign host sender p index)
  unfolding Signing.initiate_sign answer_initiate
  Held-initiate_sign sender p index = Gives-bind (Gives-read (get_current_turn_ind host)) λ turn _.
      Gives-if (is_turn turn index)
        (λ _. Gives-caught (
          (Held-get_queued_transaction host s0) p.tx_id
            (λ t. sign_if_ready host sender p t t.tx t.secret)))
        (λ _. Gives-skip)

  Held-handle_sign :
      (proof : PublishedProof) (tx_id : String) (index : ℕ)
      → Gives (Held s0) Anything (handle_sign host proof tx_id index)
  unfolding handle_sign take_proof
  Held-handle_sign proof tx_id index = Gives-caught (
      (Held-get_queued_transaction host s0) tx_id
        (λ t. add_if_ready host proof tx_id index t t.tx t.simulated_bag))

  Held-handle_signed_tx :
      (tx_bytes : String) → Gives (Held s0) Anything (handle_signed_tx host tx_bytes)
  unfolding handle_signed_tx take_signed_tx
  Held-handle_signed_tx tx_bytes = Gives-caught (
      Gives-lift_bind (E.sigma_parse_bytes tx_bytes)
        λ tx. (Held-get_queued_transaction host s0) (E.transaction_id tx) _)

  Held-dispatch :
      (kind : String) (payload : MultiSigPayload) (signature : String) (index : ℕ)
      (peer_id : String)
      → Gives (Held s0) Anything (dispatch host kind payload signature index peer_id)
  unfolding dispatch
  Held-dispatch kind (generate_commitment tx_id) signature index peer_id =
      Gives-if (kind == generate_commitment_message) (λ _. (Held-generate_commitment host s0) tx_id)
        (λ _. Gives-skip)
  Held-dispatch kind (commitment tx_id c) signature index peer_id =
      Gives-if (kind == commitment_message) (λ _. Held-handle_commitment tx_id c signature index)
        (λ _. Gives-skip)
  Held-dispatch kind (initiate_sign p) signature index peer_id =
      Gives-if (kind == initiate_sign_message) (λ _. Held-initiate_sign peer_id p index)
        (λ _. Gives-skip)
  Held-dispatch kind (sign proof tx_id) signature index peer_id =
      Gives-if (kind == sign_message) (λ _. Held-handle_sign proof tx_id index) (λ _. Gives-skip)
  Held-dispatch kind (signed_tx tx_bytes) signature index peer_id =
      Gives-if (kind == signed_tx_message) (λ _. Held-handle_signed_tx tx_bytes) (λ _. Gives-skip)

  pub Held-receive :
      (msg : Option (CommunicationMessage MultiSigPayload)) (peer : String) (s : MultiSig E)
      → Held s0 s
      → Held s0 (receive host msg peer s).1
  unfolding receive process_message
  Held-receive msg peer s h =
      handle_message-ends host.enc (λ (s : MultiSig E). s.comm) (process_message host) (Held s0)
        host.now msg peer s
        (λ kind payload signature i time.
          ((Gives-bind (Held-peers_must_be_initialized host s0)
              λ _ _. Held-dispatch kind payload signature i peer).given
            s h).1)
        h

  pub Held-sign :
      (promise : ℕ) (tx : E.Reduced) (required_sign : ℕ) (boxes : List E.Box)
      (data_boxes : Option (List E.Box)) (s : MultiSig E)
      → Held s0 s
      → Held s0 (Queue.sign host promise tx required_sign boxes data_boxes s).1
  unfolding Queue.sign peers_must_be_initialized
  Held-sign promise tx required_sign boxes data_boxes s h =
      elim (Bool-cases (is_empty s.guards_pk)) [
        | inl e ↦ simp e h
        | inr e ↦ simp (e, h.0) (refl, h.1)
      ]
