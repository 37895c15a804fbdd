-- ===== src/MultiSig/Commit/Initiated.antt =====
-- The one message that initiates the signing, and that no other is sent on the way to it.
use sign_protocols.Prelude.{
  suc, String, ◌≡◌, ◌⊎◌, inl, inr, refl, sym, ap, ◌∙◌, some, List, [], ◌∷◌, ◌++◌, any, keep_if,
  ◌==◌,
}
use sign_protocols.Prelude.Maps.{insert, keys, values}
use sign_protocols.Exec.Triples.{
  Gives, Leads, Anything, Leads-bind, Leads-lift_bind, Gives-modifies, Gives-gets,
}
use sign_protocols.Exec.{ok}
use sign_protocols.Communicator.{Submission, signed_message, or_default, get_date}
use sign_protocols.Communicator.Index.{send_message-sends}
use sign_protocols.MultiSig.Data.{
  MultiSigPayload, Signer, initiate_sign, initiate_sign_message, multi_sig_payload_json,
}
use sign_protocols.MultiSig.Ergo.{ErgoLib}
use sign_protocols.MultiSig.State.{TxQueued, MultiSig, MultiSigHost, put}
use sign_protocols.MultiSig.Hints.{
  add_hints, published_commitments_to_hint_bag, to_reduced_published_commitments_array,
  to_reduced_published_proofs_array, hint_bag_to_published_proof, extract_hints, get_empty_prover,
}
use mathlib.Core.Path.{subst}
use sign_protocols.MultiSig.Turns.Lookups.{peers_with_ids-Gives}
use sign_protocols.MultiSig.Turns.{ids_of, peers_with_ids}
use sign_protocols.MultiSig.Queue.{get_pk, get_prover}
use sign_protocols.MultiSig.Queue.Keys.{get_pk-Gives, get_prover-Gives}
use sign_protocols.MultiSig.Signing.{others}
use sign_protocols.MultiSig.Commit.{inds_of, send_initiate, initiate}

module _ {E : ErgoLib} (s0 : MultiSig E) where
  -- nothing was sent yet
  abbrev pub Unsent : MultiSig E → Type 0
  Unsent s = (s.outbox ≡ s0.outbox) × (s.guards_pk ≡ s0.guards_pk)

module _ {E : ErgoLib} (host : MultiSigHost E) (s0 : MultiSig E) where
  -- The simulated hints: what ergo-lib extracts, for the guards that did not commit, from a signing
  -- of the transaction by an empty prover with the commitments.
  pub record Simulated (t : TxQueued E) (tx : E.Reduced) (guards_pk : List String)
      (hints sim_hints : E.Bag) : Type 0 where
    pub copy : E.Bag
    pub signed_sim : E.Transaction
    pub collected :
        published_commitments_to_hint_bag E
          (values t.commitments)
          (keys t.commitments)
          (E.reduced_inputs_len tx)
          "cmtReal"
        ≡ ok hints
    pub copied : E.from_json (E.to_json hints) ≡ ok copy
    pub signed : E.sign_multi host.entropy (get_empty_prover E) tx copy ≡ ok signed_sim
    pub extracted :
        extract_hints E host.state_context signed_sim t.boxes t.data_boxes []
          (others (keys t.commitments) guards_pk)
        ≡ ok sim_hints

  -- One message to initiate the signing was sent, for the transaction with this id and these
  -- commitments: it names the guards that committed by their indices, in the order of their
  -- commitments, and has the simulated commitments and proofs of all other guards.
  pub record Initiated (tx_id : String) (t : TxQueued E) (tx : E.Reduced) (s : MultiSig E)
      : Type 0 where
    pub submission : Submission MultiSigPayload
    pub sent : s.outbox ≡ s0.outbox ++ submission ∷ []
    pub kind : submission.message.kind ≡ initiate_sign_message
    pub hints : E.Bag
    pub sim_hints : E.Bag
    pub simulated : Simulated t tx s0.guards_pk hints sim_hints
    pub payload :
        submission.message.payload
        ≡ initiate_sign record {
          tx_id = tx_id;
          committed_inds = inds_of s0.guards_pk (keys t.commitments);
          cmts = values t.commitments;
          simulated =
              to_reduced_published_commitments_array E sim_hints
                (others (keys t.commitments) s0.guards_pk);
          simulated_proofs =
              to_reduced_published_proofs_array E sim_hints
                (others (keys t.commitments) s0.guards_pk);
        }

  abbrev pub AtMostInitiated : String → TxQueued E → E.Reduced → MultiSig E → Type 0
  AtMostInitiated tx_id t tx s = (s.outbox ≡ s0.outbox) ⊎ Initiated tx_id t tx s

  unsent :
      (tx_id : String) (t : TxQueued E) (tx : E.Reduced) (s : MultiSig E)
      → Unsent s0 s
      → AtMostInitiated tx_id t tx s
  unsent tx_id t tx s u = inl u.0

  pub Unsent-get_pk : Gives (Unsent s0) Anything get_pk
  Unsent-get_pk = get_pk-Gives λ key s u. u

  Unsent-get_prover : Gives (Unsent s0) Anything get_prover
  Unsent-get_prover = get_prover-Gives λ prover s u. u

  pub Unsent-put : (tx_id : String) (t : TxQueued E) → Gives (Unsent s0) Anything (put tx_id t)
  Unsent-put tx_id t = Gives-modifies _ λ s u. u

module _ {E : ErgoLib} (host : MultiSigHost E) (s0 : MultiSig E) where
  Unsent-peers_with_ids : Gives (Unsent s0) Anything (peers_with_ids host)
  Unsent-peers_with_ids = peers_with_ids-Gives host λ d s u. u

  Leads-send_initiate :
      (tx_id : String) (t : TxQueued E) (tx : E.Reduced) (hints sim_hints : E.Bag)
      → Simulated host s0 t tx s0.guards_pk hints sim_hints
      → Leads
          (Unsent s0)
          (AtMostInitiated host s0 tx_id t tx)
          (send_initiate host tx_id t s0.guards_pk sim_hints)
  unfolding send_initiate signed_message
  Leads-send_initiate tx_id t tx hints sim_hints sim =
      Leads-bind (unsent host s0 tx_id t tx) Unsent-peers_with_ids λ peers _.
        let simulated = others (keys t.commitments) s0.guards_pk in
        let payload = initiate_sign record {
          tx_id = tx_id;
          committed_inds = inds_of s0.guards_pk (keys t.commitments);
          cmts = values t.commitments;
          simulated = to_reduced_published_commitments_array E sim_hints simulated;
          simulated_proofs = to_reduced_published_proofs_array E sim_hints simulated;
        } in
        let ids =
          ids_of (
            keep_if (λ (peer : Signer). any (λ k. k == peer.pub_key) (keys t.commitments)) peers) in
        let date = some (get_date host.now) in
        record {
          led = λ s u.
              elim (send_message-sends host.enc s.comm host.now initiate_sign_message payload ids
                date) [
                  | inl e ↦ inl (e ∙ u.0)
                  | inr (i, h, e) ↦
                      let time = or_default date (get_date host.now) in
                      let submission : Submission MultiSigPayload = record {
                        message = signed_message host.enc initiate_sign_message payload time i;
                        peers = ids;
                      } in
                      inr record {
                        submission = submission;
                        sent = e ∙ ap (λ o. o ++ submission ∷ []) u.0;
                        kind = refl;
                        hints = hints;
                        sim_hints = sim_hints;
                        simulated = sim;
                        payload = refl;
                      }
                ];
        }

  pub Leads-initiate :
      (tx_id : String) (t : TxQueued E) (tx : E.Reduced) (secret : E.Bag) (my_pub : String)
      → Leads
          (Unsent s0)
          (AtMostInitiated host s0 tx_id t tx)
          (initiate host tx_id t tx secret my_pub)
  unfolding initiate
  Leads-initiate tx_id t tx secret my_pub =
      let len = E.reduced_inputs_len tx in
      let sub = unsent host s0 tx_id t tx in
      Leads-bind sub (Gives-gets {Q = λ ks. ks ≡ s0.guards_pk} (λ s. s.guards_pk) λ s u. u.1)
        λ guards_pk g.
          Leads-lift_bind sub
            (published_commitments_to_hint_bag E (values t.commitments) (keys t.commitments) len
              "cmtReal")
            λ hints e1. Leads-lift_bind sub (E.from_json (E.to_json hints)) λ hints_copy e2.
              Leads-lift_bind sub (E.sign_multi host.entropy (get_empty_prover E) tx hints_copy)
                λ signed_sim e3.
                  Leads-lift_bind sub
                    (extract_hints E host.state_context signed_sim t.boxes t.data_boxes []
                      (others (keys t.commitments) guards_pk))
                    λ sim_hints e4.
                      Leads-bind sub
                        (Unsent-put host s0 tx_id (record t { simulated_bag = some sim_hints }))
                        λ _ _. Leads-bind sub (Unsent-get_prover host s0) λ prover _.
                          Leads-lift_bind sub
                            (E.sign_multi (suc host.entropy) prover tx
                              (add_hints E (add_hints E hints sim_hints len) secret len))
                            λ signed _.
                              Leads-lift_bind sub
                                (extract_hints E host.state_context signed t.boxes t.data_boxes
                                  (my_pub ∷ []) [])
                                λ my_hint _.
                                  Leads-bind sub
                                    (Unsent-put host s0 tx_id (record t {
                                      simulated_bag = some sim_hints;
                                      signs =
                                          insert my_pub
                                            (hint_bag_to_published_proof E my_hint my_pub) t.signs;
                                    }))
                                    λ _ _.
                                      subst
                                        (λ ks.
                                          Simulated host s0 t tx ks hints sim_hints
                                          → Leads (Unsent s0) (AtMostInitiated host s0 tx_id t tx)
                                              (send_initiate host tx_id t ks sim_hints))
                                        (sym g) (Leads-send_initiate tx_id t tx hints sim_hints)
                                        record {
                                          copy = hints_copy;
                                          signed_sim = signed_sim;
                                          collected = e1;
                                          copied = e2;
                                          signed = e3;
                                          extracted = e4;
                                        }
