-- ===== src/MultiSig/Commit.antt =====
-- `handleCommitment`: the guard in turn collects commitments and initiates the signing.
pub mod Kept
pub mod Signers
pub mod Initiated
pub mod Initiation
pub mod Prepared
pub mod Starting
use sign_protocols.Prelude.{
  ℕ, suc, String, Option, none, some, List, [], ◌∷◌, Bool, true, false, map, any, length, leb, ltb,
  keep_if, index_of, if◌then◌else◌, ◌==◌,
}
use sign_protocols.Prelude.Maps.{insert, keys, values}
use sign_protocols.Exec.{Result, ok, err, ◌>>=◌, ◌>>◌, gets, lift, skip, caught}
use sign_protocols.Communicator.{send_message, get_date}
use sign_protocols.MultiSig.Data.{
  PublishedCommitment, Signer, initiate_sign, initiate_sign_message, multi_sig_payload_json,
}
use sign_protocols.MultiSig.Ergo.{ErgoLib}
use sign_protocols.MultiSig.State.{
  TxQueued, MultiSig, MultiSigHost, Method, on_comm, put, set_locked,
}
use sign_protocols.MultiSig.Hints.{
  add_hints, published_commitments_to_hint_bag, to_reduced_published_commitments_array,
  to_reduced_published_proofs_array, hint_bag_to_published_proof, extract_hints, get_empty_prover,
}
use sign_protocols.MultiSig.Turns.{key_at, ids_of, peers_with_ids, get_current_turn_id, is_my_turn}
use sign_protocols.MultiSig.Queue.{get_pk, get_prover, get_queued_transaction}
use sign_protocols.MultiSig.Signing.{others}

-- `pubs.map((pub) => keys.indexOf(pub))`
abbrev pub inds_of : List String → List String → List (Option ℕ)
inds_of guards_pk pub_keys = map (λ key. index_of key guards_pk) pub_keys

module _ {E : ErgoLib} (host : MultiSigHost E) where
  unfoldable pub send_initiate : String → TxQueued E → List String → E.Bag → Method E (Unit {0})
  send_initiate tx_id t guards_pk sim_hints = do
    let will_sign = keys t.commitments
    let simulated = others will_sign guards_pk
    peers ← peers_with_ids host
    on_comm (
        send_message host.enc host.now initiate_sign_message
          (initiate_sign record {
            tx_id = tx_id;
            committed_inds = inds_of guards_pk will_sign;
            cmts = values t.commitments;
            simulated = to_reduced_published_commitments_array E sim_hints simulated;
            simulated_proofs = to_reduced_published_proofs_array E sim_hints simulated;
          })
          (ids_of (keep_if (λ (peer : Signer). any (λ k. k == peer.pub_key) will_sign) peers))
          (some (get_date host.now)))

  unfoldable pub initiate : String → TxQueued E → E.Reduced → E.Bag → String → Method E (Unit {0})
  unfolding send_initiate
  initiate tx_id t tx secret my_pub = do
    guards_pk ← gets λ s. s.guards_pk
    let will_sign = keys t.commitments
    let simulated = others will_sign guards_pk
    let len = E.reduced_inputs_len tx
    hints ←
        lift (published_commitments_to_hint_bag E (values t.commitments) will_sign len "cmtReal")
    hints_copy ← lift (E.from_json (E.to_json hints))
    signed_sim ← lift (E.sign_multi host.entropy (get_empty_prover E) tx hints_copy)
    sim_hints ←
        lift (extract_hints E host.state_context signed_sim t.boxes t.data_boxes [] simulated)
    put tx_id (record t { simulated_bag = some sim_hints })
    prover ← get_prover
    signed ← lift (
        E.sign_multi (suc host.entropy) prover tx
          (add_hints E (add_hints E hints sim_hints len) secret len))
    my_hint ← lift (extract_hints E host.state_context signed t.boxes t.data_boxes (my_pub ∷ []) [])
    put tx_id (record t {
      simulated_bag = some sim_hints;
      signs = insert my_pub (hint_bag_to_published_proof E my_hint my_pub) t.signs;
    })
    send_initiate tx_id t guards_pk sim_hints

  unfoldable pub add_commitment :
      String
      → PublishedCommitment
      → String
      → String
      → TxQueued E
      → E.Reduced
      → E.Bag
      → Method E (Unit {0})
  unfolding initiate
  add_commitment tx_id commitment signature pub_key t tx secret = do
    let t' = record t {
      commitments = insert pub_key commitment t.commitments;
      commitment_signs = insert pub_key signature t.commitment_signs;
    }
    put tx_id t'
    my_pub ← get_pk
    if leb t.required_signer (length (insert pub_key commitment t.commitments))
        then initiate tx_id t' tx secret my_pub
        else skip

  unfoldable pub commit_if_ready :
      String
      → PublishedCommitment
      → String
      → String
      → TxQueued E
      → Option E.Reduced
      → Option E.Bag
      → Method E (Unit {0})
  unfolding add_commitment
  commit_if_ready tx_id commitment signature pub_key t none secret = set_locked false
  commit_if_ready tx_id commitment signature pub_key t (some tx) none = set_locked false
  commit_if_ready tx_id commitment signature pub_key t (some tx) (some secret) = do
    (if ltb (length t.commitments) t.required_signer
        then caught (add_commitment tx_id commitment signature pub_key t tx secret)
        else skip)
    set_locked false

  unfoldable pub take_commitment : String → PublishedCommitment → String → ℕ → Method E (Unit {0})
  unfolding get_queued_transaction commit_if_ready
  take_commitment tx_id commitment signature index = do
    guards_pk ← gets λ s. s.guards_pk
    pub_key ← lift (key_at guards_pk (some index))
    t ← get_queued_transaction host tx_id
    commit_if_ready tx_id commitment signature pub_key t t.tx t.secret

  -- The turn's peer id is looked up for the log when it is not this guard's turn.
  unfoldable pub commit_in_turn :
      String → PublishedCommitment → String → ℕ → Bool → Method E (Unit {0})
  unfolding take_commitment
  commit_in_turn tx_id commitment signature index false = do
    turn_id ← get_current_turn_id host
    skip
  commit_in_turn tx_id commitment signature index true =
      if tx_id == "" then skip else take_commitment tx_id commitment signature index

  unfoldable pub handle_commitment : String → PublishedCommitment → String → ℕ → Method E (Unit {0})
  unfolding commit_in_turn
  handle_commitment tx_id commitment signature index = do
    mine ← is_my_turn host
    commit_in_turn tx_id commitment signature index mine
