-- ===== src/MultiSig/Commit/Prepared.antt =====
-- Initiating the signing when nothing fails: the message is sent.
use sign_protocols.Prelude.{
  ℕ, suc, String, ◌≡◌, refl, sym, ap, ◌∙◌, some, [], ◌∷◌, ◌++◌, any, keep_if, ◌==◌, List, map,
}
use sign_protocols.Prelude.Maps.{insert, keys, values}
use sign_protocols.Exec.{ok, ◌>>=◌, ◌>>◌, lift, gets}
use sign_protocols.Exec.Triples.{Leads, Leads-step}
use sign_protocols.Communicator.{Submission, signed_message, or_default, get_date, get_index}
use sign_protocols.Communicator.Index.{send_message-ok}
use sign_protocols.Detection.Active.{active_guards, active_infos, my_active_guard, sort, to_active}
use sign_protocols.MultiSig.Data.{
  MultiSigPayload, Signer, initiate_sign, initiate_sign_message, multi_sig_payload_json,
}
use sign_protocols.Detection.State.{ActiveGuard, GuardDetection, detection_payload_json}
use sign_protocols.MultiSig.Ergo.{ErgoLib}
use sign_protocols.MultiSig.State.{Method, TxQueued, MultiSig, MultiSigHost, put}
use sign_protocols.MultiSig.Hints.{
  add_hints, published_commitments_to_hint_bag, to_reduced_published_commitments_array,
  to_reduced_published_proofs_array, hint_bag_to_published_proof, extract_hints, get_empty_prover,
}
use mathlib.Core.Path.{subst}
use sign_protocols.MultiSig.Turns.{ids_of, peer_with, peers_with_ids}
use sign_protocols.MultiSig.Queue.{get_pk, get_prover}
use sign_protocols.MultiSig.Queue.Keys.{get_prover-Gives, get_prover-same}
use sign_protocols.MultiSig.Signing.{others}
use sign_protocols.MultiSig.Commit.{inds_of, send_initiate, initiate}
use sign_protocols.MultiSig.Commit.Initiated.{Unsent, Simulated, Initiated}

module _ {E : ErgoLib} (host : MultiSigHost E) (s0 : MultiSig E) (i j : ℕ) where
  -- Nothing was sent yet, and this guard's index is found, by the handler and by the detection.
  abbrev pub Prepared : MultiSig E → Type 0
  Prepared s =
      Unsent s0 s
      × ((get_index host.enc s.comm).0 ≡ ok i)
      × ((get_index host.enc s.detection.comm).0 ≡ ok j)

  -- and the secret and the cached prover are those of the beginning
  abbrev pub Ready : MultiSig E → Type 0
  Ready s = Prepared s × (s.secret_hex ≡ s0.secret_hex) × (s.prover ≡ s0.prover)

module _ {E : ErgoLib} (host : MultiSigHost E) where
  active_guards-ok :
      (d : GuardDetection (Unit {0})) (j : ℕ)
      → (get_index host.enc d.comm).0 ≡ ok j
      → (active : List ActiveGuard) × ((active_guards host.node d).0 ≡ ok active)
  unfolding active_guards
  active_guards-ok d j e = (
    sort (λ a b. host.locale_le a.public_key b.public_key)
        (map to_active
            (active_infos (get_date host.now) (record d { comm = (get_index host.enc d.comm).1 }))
          ++ my_active_guard host.node j ∷ []),
    rw e refl,
  )

  peers_with_ids-ok :
      (s : MultiSig E) (j : ℕ)
      → (get_index host.enc s.detection.comm).0 ≡ ok j
      → (peers : List Signer) × (d : GuardDetection (Unit {0})) × (peers_with_ids host s
          ≡ (ok peers, record s { detection = d }))
  unfolding peers_with_ids
  peers_with_ids-ok s j e =
      let (active, f) = active_guards-ok s.detection j e in
      (map (peer_with active) s.guards_pk, (active_guards host.node s.detection).1, rw f refl)

module _ {E : ErgoLib} (host : MultiSigHost E) where
  -- what `initiate` does when it has the simulated hints and has noted them
  abbrev partial :
      String
      → TxQueued E
      → E.Reduced
      → E.Bag
      → String
      → List String
      → E.Bag
      → E.Bag
      → Method E (Unit {0})
  partial tx_id t tx secret my_pub guards_pk hints sim_hints = do
    prover ← get_prover
    signed ← lift (
        E.sign_multi (suc host.entropy) prover tx (
          add_hints E (add_hints E hints sim_hints (E.reduced_inputs_len tx)) secret
            (E.reduced_inputs_len tx)))
    my_hint ← lift (extract_hints E host.state_context signed t.boxes t.data_boxes (my_pub ∷ []) [])
    put tx_id (record t {
      simulated_bag = some sim_hints;
      signs = insert my_pub (hint_bag_to_published_proof E my_hint my_pub) t.signs;
    })
    send_initiate host tx_id t guards_pk sim_hints

-- The calls of ergo-lib that the initiating makes, and the guard's own key and prover, are answered.
pub record Succeeds {E : ErgoLib} (host : MultiSigHost E) (s0 : MultiSig E) (t : TxQueued E)
    (tx : E.Reduced) (secret : E.Bag) : Type 0 where
  pub hints : E.Bag
  pub sim_hints : E.Bag
  pub simulated : Simulated host s0 t tx s0.guards_pk hints sim_hints
  pub my_pub : String
  pub own : (get_pk s0).0 ≡ ok my_pub
  pub prover : E.Wallet
  pub proves : (get_prover s0).0 ≡ ok prover
  pub signed : E.Transaction
  pub signs :
      E.sign_multi (suc host.entropy) prover tx (
        add_hints E
          (add_hints E hints sim_hints (E.reduced_inputs_len tx))
          secret
          (E.reduced_inputs_len tx))
      ≡ ok signed
  pub my_hint : E.Bag
  pub extracts :
      extract_hints E host.state_context signed t.boxes t.data_boxes (my_pub ∷ []) [] ≡ ok my_hint

module _ {E : ErgoLib} (host : MultiSigHost E) (s0 : MultiSig E) (i j : ℕ) where
  Starts-send_initiate :
      (tx_id : String) (t : TxQueued E) (tx : E.Reduced) (hints sim_hints : E.Bag)
      → Simulated host s0 t tx s0.guards_pk hints sim_hints
      → Leads
          (Prepared host s0 i j)
          (Initiated host s0 tx_id t tx)
          (send_initiate host tx_id t s0.guards_pk sim_hints)
  unfolding send_initiate
  Starts-send_initiate tx_id t tx hints sim_hints sim = record {
    led = λ s (u, found, found').
        let (peers, d, e) = peers_with_ids-ok host s j found' in
        let simulated = others (keys t.commitments) s0.guards_pk in
        let payload = initiate_sign record {
          tx_id = tx_id;
          committed_inds = inds_of s0.guards_pk (keys t.commitments);
          cmts = values t.commitments;
          simulated = to_reduced_published_commitments_array E sim_hints simulated;
          simulated_proofs = to_reduced_published_proofs_array E sim_hints simulated;
        } in
        let ids =
          ids_of (
            keep_if (λ (peer : Signer). any (λ k. k == peer.pub_key) (keys t.commitments)) peers) in
        let date = some (get_date host.now) in
        let submission : Submission MultiSigPayload = record {
          message =
              signed_message host.enc initiate_sign_message payload
                (or_default date (get_date host.now)) i;
          peers = ids;
        } in
        let (_, _, sent) =
          send_message-ok host.enc s.comm host.now initiate_sign_message payload ids date i found in
        rw e record {
          submission = submission;
          sent = sent ∙ ap (λ o. o ++ submission ∷ []) u.0;
          kind = unfold signed_message in refl;
          hints = hints;
          sim_hints = sim_hints;
          simulated = sim;
          payload = unfold signed_message in refl;
        };
  }

  Starts-partial :
      (tx_id : String) (t : TxQueued E) (tx : E.Reduced) (secret : E.Bag)
      (x : Succeeds host s0 t tx secret)
      → Leads
          (Ready host s0 i j)
          (Initiated host s0 tx_id t tx)
          (partial host tx_id t tx secret x.my_pub s0.guards_pk x.hints x.sim_hints)
  Starts-partial tx_id t tx secret x =
      let len = E.reduced_inputs_len tx in
      Leads-step get_prover x.prover
        (λ s r. (
          get_prover-same s s0 r.1 r.2 ∙ x.proves,
          ((get_prover-Gives {I = Prepared host s0 i j} λ prover s p. p).given s r.0).1,
        ))
        λ prover q1.
          Leads-step
            (lift (
              E.sign_multi (suc host.entropy) prover tx
                (add_hints E (add_hints E x.hints x.sim_hints len) secret len)))
            x.signed
            (λ s p. (
              ap
                    (λ w.
                      E.sign_multi (suc host.entropy) w tx
                        (add_hints E (add_hints E x.hints x.sim_hints len) secret len))
                    q1
                  ∙ x.signs,
              p,
            ))
            λ signed q2.
              Leads-step
                (lift (
                  extract_hints E host.state_context signed t.boxes t.data_boxes (x.my_pub ∷ [])
                    []))
                x.my_hint
                (λ s p. (
                  ap
                        (λ y.
                          extract_hints E host.state_context y t.boxes t.data_boxes (x.my_pub ∷ [])
                            [])
                        q2
                      ∙ x.extracts,
                  p,
                ))
                λ my_hint _.
                  Leads-step
                    (put tx_id (record t {
                      simulated_bag = some x.sim_hints;
                      signs =
                          insert x.my_pub (hint_bag_to_published_proof E my_hint x.my_pub) t.signs;
                    }))
                    tt (λ s p. (refl, p))
                    λ _ _. Starts-send_initiate tx_id t tx x.hints x.sim_hints x.simulated

  pub Starts-initiate :
      (tx_id : String) (t : TxQueued E) (tx : E.Reduced) (secret : E.Bag)
      (x : Succeeds host s0 t tx secret)
      → Leads
          (Ready host s0 i j)
          (Initiated host s0 tx_id t tx)
          (initiate host tx_id t tx secret x.my_pub)
  unfolding initiate
  Starts-initiate tx_id t tx secret x =
      let len = E.reduced_inputs_len tx in
      let keep = λ (s : MultiSig E) (r : Ready host s0 i j s). r in
      Leads-step (gets (λ s. s.guards_pk)) s0.guards_pk (λ s r. (ap ok r.0.0.1, r))
        λ guards_pk g.
          Leads-step
            (lift (
              published_commitments_to_hint_bag E (values t.commitments) (keys t.commitments) len
                "cmtReal"))
            x.hints (λ s r. (x.simulated.collected, r))
            λ hints q1.
              Leads-step (lift (E.from_json (E.to_json hints))) x.simulated.copy
                (λ s r. (ap (λ h. E.from_json (E.to_json h)) q1 ∙ x.simulated.copied, r))
                λ hints_copy q2.
                  Leads-step (lift (E.sign_multi host.entropy (get_empty_prover E) tx hints_copy))
                    x.simulated.signed_sim
                    (λ s r. (
                      ap (λ h. E.sign_multi host.entropy (get_empty_prover E) tx h) q2
                          ∙ x.simulated.signed,
                      r,
                    ))
                    λ signed_sim q3.
                      Leads-step
                        (lift (
                          extract_hints E host.state_context signed_sim t.boxes t.data_boxes []
                            (others (keys t.commitments) guards_pk)))
                        x.sim_hints
                        (λ s r. (
                          ap
                                (λ y.
                                  extract_hints E host.state_context y t.boxes t.data_boxes []
                                    (others (keys t.commitments) guards_pk))
                                q3
                              ∙ ap
                                  (λ ks.
                                    extract_hints E host.state_context x.simulated.signed_sim
                                      t.boxes t.data_boxes [] (others (keys t.commitments) ks))
                                  g
                              ∙ x.simulated.extracted,
                          r,
                        ))
                        λ sim_hints q4.
                          Leads-step (put tx_id (record t { simulated_bag = some sim_hints })) tt
                            (λ s r. (refl, r))
                            λ _ _.
                              subst
                                (λ ks.
                                  Leads (Ready host s0 i j) (Initiated host s0 tx_id t tx)
                                    (partial host tx_id t tx secret x.my_pub ks hints sim_hints))
                                (sym g)
                                (subst
                                  (λ b. Leads (Ready host s0 i j) (Initiated host s0 tx_id t tx) (
                                    partial host tx_id t tx secret x.my_pub s0.guards_pk b
                                      sim_hints))
                                  (sym q1)
                                  (subst
                                    (λ b. Leads (Ready host s0 i j) (Initiated host s0 tx_id t tx) (
                                      partial host tx_id t tx secret x.my_pub s0.guards_pk x.hints
                                        b))
                                    (sym q4) (Starts-partial tx_id t tx secret x)))
