-- ===== src/MultiSig/Signing.antt =====
-- The partial signatures and the signed transaction: `initiateSign`, `handleSign` and
-- `handleSignedTx`.
pub mod Kept
pub mod Outcome
pub mod Stuck
use sign_protocols.Prelude.{
  ℕ, String, Option, none, some, List, [], ◌∷◌, Bool, true, false, not, map, any, length, leb,
  keep_if, if◌then◌else◌, ◌==◌,
}
use sign_protocols.Prelude.Maps.{insert, erase, keys, values}
use sign_protocols.Json.{◌⋯◌}
use sign_protocols.Exec.{Result, ok, err, ◌>>=◌, ◌>>◌, pure, gets, modifies, lift, skip, caught}
use sign_protocols.Communicator.{send_message, get_date}
use sign_protocols.Tss.Turns.{is_turn}
use sign_protocols.MultiSig.Data.{
  InitiateSignPayload, PublishedProof, Signer, sign, signed_tx, sign_message, signed_tx_message,
  multi_sig_payload_json,
}
use sign_protocols.MultiSig.Ergo.{ErgoLib}
use sign_protocols.MultiSig.State.{
  TxQueued, MultiSig, MultiSigHost, Method, resolved, on_comm, settle, put, set_locked,
}
use sign_protocols.MultiSig.Hints.{
  and_then, add_hints, published_commitments_to_hint_bag, published_proofs_to_hint_bag,
  hint_bag_to_published_proof, extract_hints, verify_input, get_empty_prover,
}
use sign_protocols.MultiSig.Turns.{key_at, ids_of, peers_with_ids, get_current_turn_ind}
use sign_protocols.MultiSig.Queue.{get_pk, get_prover, get_queued_transaction, reject_with}

-- `inds.map((ind) => keys[ind].pub)`
unfoldable pub keys_at : List String → List (Option ℕ) → Result (List String)
unfolding key_at
keys_at guards_pk [] = ok []
keys_at guards_pk (i ∷ inds) =
    let rest = keys_at guards_pk inds in
    and_then (key_at guards_pk i) λ key. and_then rest λ keys. ok (key ∷ keys)

-- The keys that are not among the ones listed.
abbrev pub others : List String → List String → List String
others listed guards_pk = keep_if (λ key. not (any (λ k. k == key) listed)) guards_pk

module _ {E : ErgoLib} (host : MultiSigHost E) where
  -- The hints with which a partial signature is made.
  partial_hints : InitiateSignPayload → List String → List String → E.Bag → ℕ → Result E.Bag
  partial_hints p signed simulated secret len =
      and_then (published_commitments_to_hint_bag E p.cmts signed len "cmtReal") λ cmt_hints.
        and_then (published_commitments_to_hint_bag E p.simulated simulated len "cmtSimulated")
          λ sim_hints.
            and_then
              (published_proofs_to_hint_bag E p.simulated_proofs simulated len "proofSimulated")
              λ sim_proofs. ok (
                add_hints E
                  (add_hints E (add_hints E (add_hints E E.empty_bag cmt_hints len) sim_hints len)
                    sim_proofs len)
                  secret len)

  -- the signature that goes with those of the keys in `signed`
  sign_as :
      String
      → InitiateSignPayload
      → TxQueued E
      → E.Reduced
      → E.Bag
      → String
      → List String
      → List String
      → Method E (Unit {0})
  unfolding partial_hints
  sign_as sender p t tx secret my_pub guards_pk signed = do
    hints ← lift (partial_hints p signed (others signed guards_pk) secret (E.reduced_inputs_len tx))
    prover ← get_prover
    partial ← lift (E.sign_multi host.entropy prover tx hints)
    my_hints ←
        lift (extract_hints E host.state_context partial t.boxes t.data_boxes (my_pub ∷ []) [])
    set_locked false
    on_comm (
        send_message host.enc host.now sign_message
          (sign (hint_bag_to_published_proof E my_hints my_pub) p.tx_id) (sender ∷ [])
          (some (get_date host.now)))

  unfoldable pub partial_sign :
      String → InitiateSignPayload → TxQueued E → E.Reduced → E.Bag → Method E (Unit {0})
  unfolding sign_as
  partial_sign sender p t tx secret = do
    my_pub ← get_pk
    guards_pk ← gets λ s. s.guards_pk
    signed ← lift (keys_at guards_pk p.committed_inds)
    sign_as sender p t tx secret my_pub guards_pk signed

  unfoldable pub sign_if_ready :
      String
      → InitiateSignPayload
      → TxQueued E
      → Option E.Reduced
      → Option E.Bag
      → Method E (Unit {0})
  unfolding partial_sign
  sign_if_ready sender p t none secret = set_locked false
  sign_if_ready sender p t (some tx) none = set_locked false
  sign_if_ready sender p t (some tx) (some secret) = partial_sign sender p t tx secret

  unfoldable pub answer_initiate : String → InitiateSignPayload → Method E (Unit {0})
  unfolding get_queued_transaction sign_if_ready
  answer_initiate sender p = do
    t ← get_queued_transaction host p.tx_id
    sign_if_ready sender p t t.tx t.secret

  unfoldable pub initiate_sign : String → InitiateSignPayload → ℕ → Method E (Unit {0})
  unfolding get_current_turn_ind answer_initiate
  initiate_sign sender p index = do
    turn ← gets (get_current_turn_ind host)
    if is_turn turn index then caught (answer_initiate sender p) else skip

  unfoldable pub settle_signed : Bool → TxQueued E → E.Transaction → MultiSig E → MultiSig E
  settle_signed true t tx s = elim t.resolve [
    | none ↦ s
    | some promise ↦ settle (resolved promise tx) s
  ]
  settle_signed false t tx s =
      reject_with ("Signed transaction " ⋯ E.transaction_id tx ⋯ " is invalid") t.reject s

  unfoldable pub take_signed_tx : String → Method E (Unit {0})
  unfolding get_queued_transaction verify_input settle_signed
  take_signed_tx tx_bytes = do
    tx ← lift (E.sigma_parse_bytes tx_bytes)
    t ← get_queued_transaction host (E.transaction_id tx)
    valid ← lift (verify_input E host.state_context tx t.boxes)
    modifies (settle_signed valid t tx)
    set_locked false
    modifies λ s. record s { transactions = erase (E.transaction_id tx) s.transactions }

  unfoldable pub handle_signed_tx : String → Method E (Unit {0})
  unfolding take_signed_tx
  handle_signed_tx tx_bytes = caught (take_signed_tx tx_bytes)

  -- The hints with which the whole transaction is signed.
  all_hints : TxQueued E → E.Bag → ℕ → Result E.Bag
  all_hints t simulated_bag len =
      and_then (published_proofs_to_hint_bag E (values t.signs) (keys t.signs) len "proofReal")
        λ proofs.
          and_then
            (published_commitments_to_hint_bag E (values t.commitments) (keys t.commitments) len
              "cmtReal")
            λ cmt_hints. ok (
              add_hints E (add_hints E (add_hints E E.empty_bag proofs len) simulated_bag len)
                cmt_hints len)

  unfoldable pub complete_sign : TxQueued E → E.Reduced → E.Bag → Method E (Unit {0})
  unfolding all_hints handle_signed_tx
  complete_sign t tx simulated_bag = do
    hints ← lift (all_hints t simulated_bag (E.reduced_inputs_len tx))
    signed ← lift (E.sign_multi host.entropy (get_empty_prover E) tx hints)
    set_locked false
    handle_signed_tx (E.sigma_serialize_bytes signed)
    my_pub ← get_pk
    peers ← peers_with_ids host
    on_comm (
        send_message host.enc host.now signed_tx_message
          (signed_tx (E.sigma_serialize_bytes signed))
          (ids_of (keep_if (λ (peer : Signer). not (peer.pub_key == my_pub)) peers))
          (some (get_date host.now)))

  -- Only the first call of `release` has an effect, and `complete_sign` has made it.
  unfoldable pub add_proof :
      PublishedProof → String → ℕ → TxQueued E → E.Reduced → E.Bag → Method E (Unit {0})
  unfolding complete_sign
  add_proof proof tx_id index t tx simulated_bag = do
    guards_pk ← gets λ s. s.guards_pk
    pub_key ← lift (key_at guards_pk (some index))
    let t' = record t { signs = insert pub_key proof t.signs }
    put tx_id t'
    (if leb t.required_signer (length (insert pub_key proof t.signs))
        then complete_sign t' tx simulated_bag
        else set_locked false)

  pub add_if_ready :
      PublishedProof
      → String
      → ℕ
      → TxQueued E
      → Option E.Reduced
      → Option E.Bag
      → Method E (Unit {0})
  unfolding add_proof
  add_if_ready proof tx_id index t none simulated_bag = set_locked false
  add_if_ready proof tx_id index t (some tx) none = set_locked false
  add_if_ready proof tx_id index t (some tx) (some simulated_bag) =
      add_proof proof tx_id index t tx simulated_bag

  unfoldable pub take_proof : PublishedProof → String → ℕ → Method E (Unit {0})
  unfolding get_queued_transaction add_if_ready
  take_proof proof tx_id index = do
    t ← get_queued_transaction host tx_id
    add_if_ready proof tx_id index t t.tx t.simulated_bag

  unfoldable pub handle_sign : PublishedProof → String → ℕ → Method E (Unit {0})
  unfolding take_proof
  handle_sign proof tx_id index = caught (take_proof proof tx_id index)
