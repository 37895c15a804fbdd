-- ===== src/MultiSig/Commit/Kept.antt =====
-- What `handleCommitment` leaves of the queue's requests.
use sign_protocols.Prelude.{
  refl, ℕ, suc, String, Option, none, some, List, [], ◌∷◌, Bool, true, false, any, length, leb, ltb,
  keep_if, ◌==◌,
}
use sign_protocols.Prelude.Maps.{insert, keys, values}
use sign_protocols.Exec.Triples.{
  Gives, Anything, Gives-bind, Gives-skip, Gives-lift_bind, Gives-read, Gives-if, Gives-caught,
}
use sign_protocols.Communicator.{send_message, get_date}
use sign_protocols.MultiSig.Data.{
  PublishedCommitment, Signer, initiate_sign, initiate_sign_message, multi_sig_payload_json,
}
use sign_protocols.MultiSig.Ergo.{ErgoLib}
use sign_protocols.MultiSig.State.{TxQueued, MultiSig, MultiSigHost}
use sign_protocols.MultiSig.Hints.{
  add_hints, published_commitments_to_hint_bag, to_reduced_published_commitments_array,
  to_reduced_published_proofs_array, hint_bag_to_published_proof, extract_hints, get_empty_prover,
}
use sign_protocols.MultiSig.Since.{
  whole_from, Since, Entry, Gives-on_comm, Gives-put, Gives-set_locked,
}
use sign_protocols.MultiSig.Turns.{key_at, ids_of}
use sign_protocols.MultiSig.Turns.Kept.{
  Gives-is_my_turn, Gives-get_current_turn_id, Gives-peers_with_ids,
}
use sign_protocols.MultiSig.Queue.Kept.{
  Gives-get_pk, Gives-get_prover, Gives-get_queued_transaction,
}
use sign_protocols.MultiSig.Signing.{others}
use sign_protocols.MultiSig.Commit.{
  inds_of, send_initiate, initiate, add_commitment, commit_if_ready, take_commitment,
  commit_in_turn, handle_commitment,
}

module _ {E : ErgoLib} (host : MultiSigHost E) (s0 : MultiSig E) where
  Gives-send_initiate :
      (tx_id : String) (t : TxQueued E) (guards_pk : List String) (sim_hints : E.Bag)
      → Gives
          (Since host.state_context (whole_from s0))
          Anything
          (send_initiate host tx_id t guards_pk sim_hints)
  unfolding send_initiate
  Gives-send_initiate tx_id t guards_pk sim_hints =
      Gives-bind (Gives-peers_with_ids host host.state_context (whole_from s0)) λ peers _.
        let simulated = others (keys t.commitments) guards_pk in
        Gives-on_comm host.state_context (whole_from s0) (
          send_message host.enc host.now initiate_sign_message
            (initiate_sign record {
              tx_id = tx_id;
              committed_inds = inds_of guards_pk (keys t.commitments);
              cmts = values t.commitments;
              simulated = to_reduced_published_commitments_array E sim_hints simulated;
              simulated_proofs = to_reduced_published_proofs_array E sim_hints simulated;
            })
            (ids_of (
              keep_if (λ (peer : Signer). any (λ k. k == peer.pub_key) (keys t.commitments)) peers))
            (some (get_date host.now)))

  Gives-initiate :
      (tx_id : String) (t : TxQueued E) (tx : E.Reduced) (secret : E.Bag) (my_pub : String)
      → Entry host.state_context (whole_from s0) tx_id t
      → Gives
          (Since host.state_context (whole_from s0))
          Anything
          (initiate host tx_id t tx secret my_pub)
  unfolding initiate
  Gives-initiate tx_id t tx secret my_pub e =
      let len = E.reduced_inputs_len tx in
      Gives-bind (Gives-read (λ s. s.guards_pk)) λ guards_pk _.
        Gives-lift_bind
          (published_commitments_to_hint_bag E (values t.commitments) (keys t.commitments) len
            "cmtReal")
          λ hints. Gives-lift_bind (E.from_json (E.to_json hints)) λ hints_copy.
            Gives-lift_bind (E.sign_multi host.entropy (get_empty_prover E) tx hints_copy)
              λ signed_sim.
                Gives-lift_bind
                  (extract_hints E host.state_context signed_sim t.boxes t.data_boxes []
                    (others (keys t.commitments) guards_pk))
                  λ sim_hints.
                    Gives-bind
                      (Gives-put host.state_context (whole_from s0) tx_id
                        (record t { simulated_bag = some sim_hints })
                        record { from = e.from; peer = e.peer })
                      λ _ _.
                        Gives-bind (Gives-get_prover host.state_context (whole_from s0)) λ prover _.
                          Gives-lift_bind
                            (E.sign_multi (suc host.entropy) prover tx
                              (add_hints E (add_hints E hints sim_hints len) secret len))
                            λ signed.
                              Gives-lift_bind
                                (extract_hints E host.state_context signed t.boxes t.data_boxes
                                  (my_pub ∷ []) [])
                                λ my_hint.
                                  Gives-bind
                                    (Gives-put host.state_context (whole_from s0) tx_id
                                      (record t {
                                        simulated_bag = some sim_hints;
                                        signs =
                                            insert my_pub
                                              (hint_bag_to_published_proof E my_hint my_pub)
                                              t.signs;
                                      })
                                      record { from = e.from; peer = e.peer })
                                    λ _ _. Gives-send_initiate tx_id t guards_pk sim_hints

  Gives-add_commitment :
      (tx_id : String) (commitment : PublishedCommitment) (signature pub_key : String)
      (t : TxQueued E) (tx : E.Reduced) (secret : E.Bag)
      → Entry host.state_context (whole_from s0) tx_id t
      → Gives
          (Since host.state_context (whole_from s0))
          Anything
          (add_commitment host tx_id commitment signature pub_key t tx secret)
  unfolding add_commitment
  Gives-add_commitment tx_id commitment signature pub_key t tx secret e =
      let t' = record t {
        commitments = insert pub_key commitment t.commitments;
        commitment_signs = insert pub_key signature t.commitment_signs;
      } in
      Gives-bind
        (Gives-put host.state_context (whole_from s0) tx_id t'
          record { from = e.from; peer = e.peer })
        λ _ _. Gives-bind (Gives-get_pk host.state_context (whole_from s0)) λ my_pub _.
          Gives-if (leb t.required_signer (length (insert pub_key commitment t.commitments)))
            (λ _. Gives-initiate tx_id t' tx secret my_pub record { from = e.from; peer = e.peer })
            (λ _. Gives-skip)

  Gives-commit_if_ready :
      (tx_id : String) (commitment : PublishedCommitment) (signature pub_key : String)
      (t : TxQueued E) (tx : Option E.Reduced) (secret : Option E.Bag)
      → Entry host.state_context (whole_from s0) tx_id t
      → Gives
          (Since host.state_context (whole_from s0))
          Anything
          (commit_if_ready host tx_id commitment signature pub_key t tx secret)
  unfolding commit_if_ready
  Gives-commit_if_ready tx_id commitment signature pub_key t none secret e =
      Gives-set_locked host.state_context (whole_from s0) false
  Gives-commit_if_ready tx_id commitment signature pub_key t (some tx) none e =
      Gives-set_locked host.state_context (whole_from s0) false
  Gives-commit_if_ready tx_id commitment signature pub_key t (some tx) (some secret) e =
      Gives-bind
        (Gives-if (ltb (length t.commitments) t.required_signer)
          (λ _.
            Gives-caught (Gives-add_commitment tx_id commitment signature pub_key t tx secret e))
          (λ _. Gives-skip))
        λ _ _. Gives-set_locked host.state_context (whole_from s0) false

  Gives-take_commitment :
      (tx_id : String) (commitment : PublishedCommitment) (signature : String) (index : ℕ)
      → Gives
          (Since host.state_context (whole_from s0))
          Anything
          (take_commitment host tx_id commitment signature index)
  unfolding take_commitment
  Gives-take_commitment tx_id commitment signature index =
      Gives-bind (Gives-read (λ s. s.guards_pk)) λ guards_pk _.
        Gives-lift_bind (key_at guards_pk (some index)) λ pub_key.
          Gives-bind
            (Gives-get_queued_transaction host host.state_context (whole_from s0) tx_id refl)
            λ t e. Gives-commit_if_ready tx_id commitment signature pub_key t t.tx t.secret e

  Gives-commit_in_turn :
      (tx_id : String) (commitment : PublishedCommitment) (signature : String) (index : ℕ)
      (mine : Bool)
      → Gives
          (Since host.state_context (whole_from s0))
          Anything
          (commit_in_turn host tx_id commitment signature index mine)
  unfolding commit_in_turn
  Gives-commit_in_turn tx_id commitment signature index false =
      Gives-bind (Gives-get_current_turn_id host host.state_context (whole_from s0))
        λ _ _. Gives-skip
  Gives-commit_in_turn tx_id commitment signature index true =
      Gives-if (tx_id == "") (λ _. Gives-skip)
        (λ _. Gives-take_commitment tx_id commitment signature index)

  pub Gives-handle_commitment :
      (tx_id : String) (commitment : PublishedCommitment) (signature : String) (index : ℕ)
      → Gives
          (Since host.state_context (whole_from s0))
          Anything
          (handle_commitment host tx_id commitment signature index)
  unfolding handle_commitment
  Gives-handle_commitment tx_id commitment signature index =
      Gives-bind (Gives-is_my_turn host host.state_context (whole_from s0))
        λ mine _. Gives-commit_in_turn tx_id commitment signature index mine
