-- ===== src/MultiSig/Signing/Kept.antt =====
-- What the three handlers of signatures leave of the queue's requests, and which promises they
-- settle.
use sign_protocols.Prelude.{
  refl, ℕ, String, ◌≡◌, sym, ap, ◌∙◌, Option, none, some, List, [], ◌∷◌, inl, inr, Bool, true,
  false, not, length, leb, keep_if, Option-cases, arith, ◌==◌,
}
use sign_protocols.Prelude.Maps.{insert}
use sign_protocols.Exec.{ok}
use sign_protocols.Exec.Triples.{
  Leads, Leads-bind, Leads-lift_bind, Leads-if, Leads-Gives, Leads-caught, Leads-step, Gives,
  Anything, Gives-bind, Gives-skip, Gives-lift_bind, Gives-read, Gives-if, Gives-modifies,
  Gives-caught,
}
use sign_protocols.Communicator.{send_message, get_date}
use sign_protocols.Tss.Turns.{is_turn}
use sign_protocols.MultiSig.Data.{
  InitiateSignPayload, PublishedProof, Signer, sign, signed_tx, sign_message, signed_tx_message,
  multi_sig_payload_json,
}
use sign_protocols.MultiSig.Ergo.{ErgoLib}
use sign_protocols.MultiSig.State.{Method, TxQueued, MultiSig, MultiSigHost, resolved, rejected}
use sign_protocols.MultiSig.Hints.{
  hint_bag_to_published_proof, extract_hints, verify_input, get_empty_prover,
}
use sign_protocols.MultiSig.Since.{
  whole_from, rest_from, Since-rest, Leads-delete, Since, Since-settle, Entry, Gives-on_comm,
  Gives-put, Gives-set_locked,
}
use sign_protocols.MultiSig.Turns.{key_at, ids_of}
use sign_protocols.MultiSig.Turns.Kept.{Gives-turn_ind, Gives-peers_with_ids}
use sign_protocols.MultiSig.Queue.Kept.{
  Gives-get_pk, Gives-get_prover, Gives-get_queued_transaction,
}
use sign_protocols.MultiSig.Signing.{
  keys_at, others, partial_hints, sign_as, partial_sign, sign_if_ready, answer_initiate,
  initiate_sign, settle_signed, take_signed_tx, handle_signed_tx, all_hints, complete_sign,
  add_proof, add_if_ready, take_proof, handle_sign,
}
use mathlib.Core.Path.{subst}

module _ {E : ErgoLib} (host : MultiSigHost E) (s0 : MultiSig E) where
  Gives-sign_as :
      (sender : String) (p : InitiateSignPayload) (t : TxQueued E) (tx : E.Reduced) (secret : E.Bag)
      (my_pub : String) (guards_pk signed : List String)
      → Gives
          (Since host.state_context (whole_from s0))
          Anything
          (sign_as host sender p t tx secret my_pub guards_pk signed)
  unfolding sign_as
  Gives-sign_as sender p t tx secret my_pub guards_pk signed =
      Gives-lift_bind
        (partial_hints host p signed (others signed guards_pk) secret (E.reduced_inputs_len tx))
        λ hints. Gives-bind (Gives-get_prover host.state_context (whole_from s0)) λ prover _.
          Gives-lift_bind (E.sign_multi host.entropy prover tx hints) λ partial.
            Gives-lift_bind
              (extract_hints E host.state_context partial t.boxes t.data_boxes (my_pub ∷ []) [])
              λ my_hints.
                Gives-bind (Gives-set_locked host.state_context (whole_from s0) false) λ _ _.
                  Gives-on_comm host.state_context (whole_from s0) (
                    send_message host.enc host.now sign_message
                      (sign (hint_bag_to_published_proof E my_hints my_pub) p.tx_id) (sender ∷ [])
                      (some (get_date host.now)))

  Gives-partial_sign :
      (sender : String) (p : InitiateSignPayload) (t : TxQueued E) (tx : E.Reduced) (secret : E.Bag)
      → Gives
          (Since host.state_context (whole_from s0))
          Anything
          (partial_sign host sender p t tx secret)
  unfolding partial_sign
  Gives-partial_sign sender p t tx secret =
      Gives-bind (Gives-get_pk host.state_context (whole_from s0)) λ my_pub _.
        Gives-bind (Gives-read (λ s. s.guards_pk)) λ guards_pk _.
          Gives-lift_bind (keys_at guards_pk p.committed_inds)
            λ signed. Gives-sign_as sender p t tx secret my_pub guards_pk signed

  Gives-sign_if_ready :
      (sender : String) (p : InitiateSignPayload) (t : TxQueued E) (tx : Option E.Reduced)
      (secret : Option E.Bag)
      → Gives
          (Since host.state_context (whole_from s0))
          Anything
          (sign_if_ready host sender p t tx secret)
  unfolding sign_if_ready
  Gives-sign_if_ready sender p t none secret =
      Gives-set_locked host.state_context (whole_from s0) false
  Gives-sign_if_ready sender p t (some tx) none =
      Gives-set_locked host.state_context (whole_from s0) false
  Gives-sign_if_ready sender p t (some tx) (some secret) = Gives-partial_sign sender p t tx secret

  Gives-answer_initiate :
      (sender : String) (p : InitiateSignPayload)
      → Gives (Since host.state_context (whole_from s0)) Anything (answer_initiate host sender p)
  unfolding answer_initiate
  Gives-answer_initiate sender p =
      Gives-bind (Gives-get_queued_transaction host host.state_context (whole_from s0) p.tx_id refl)
        λ t e. Gives-sign_if_ready sender p t t.tx t.secret

  pub Gives-initiate_sign :
      (sender : String) (p : InitiateSignPayload) (index : ℕ)
      → Gives
          (Since host.state_context (whole_from s0))
          Anything
          (initiate_sign host sender p index)
  unfolding initiate_sign
  Gives-initiate_sign sender p index =
      Gives-bind (Gives-turn_ind host host.state_context (whole_from s0)) λ turn _.
        Gives-if (is_turn turn index) (λ _. Gives-caught (Gives-answer_initiate sender p))
          (λ _. Gives-skip)

  Since-settle_signed :
      (valid : Bool) (t : TxQueued E) (tx : E.Transaction) (s : MultiSig E)
      → Entry host.state_context (whole_from s0) (E.transaction_id tx) t
      → verify_input E host.state_context tx t.boxes ≡ ok valid
      → Since host.state_context (whole_from s0) s
      → Since host.state_context (whole_from s0) (settle_signed host valid t tx s)
  unfolding settle_signed
  Since-settle_signed true t tx s e v i = elim (Option-cases t.resolve) [
    | inl n ↦ rw n i
    | inr (promise, n) ↦ rw n (
        Since-settle host.state_context (whole_from s0) (resolved promise tx) s
          (elim e.from [
            | inl (t0, h, r) ↦ (
              t0,
              h,
              sym (ap (λ q. q.resolve) r) ∙ n,
              subst (λ bs. verify_input E host.state_context tx bs ≡ ok true) (ap (λ q. q.boxes) r)
                  v,
            )
            | inr ((no_tx, no_resolve, no_reject), _) ↦ ground (arith, n, no_resolve)
          ])
          i)
  ]
  Since-settle_signed false t tx s e v i = elim (Option-cases t.reject) [
    | inl n ↦ rw n i
    | inr (promise, n) ↦ rw n (
        Since-settle host.state_context (whole_from s0) (rejected promise _) s
          (elim e.from [
            | inl (t0, h, r) ↦ (
              t0,
              tx,
              h,
              sym (ap (λ q. q.reject) r) ∙ n,
              subst (λ bs. verify_input E host.state_context tx bs ≡ ok false) (ap (λ q. q.boxes) r)
                  v,
            )
            | inr ((no_tx, no_resolve, no_reject), _) ↦ ground (arith, n, no_reject)
          ])
          i)
  ]

  -- Only the end of a signing removes an entry.
  abbrev pub Ends : {A : Type 0} → Method E A → Type 0
  Ends m =
      Leads (Since host.state_context (whole_from s0)) (Since host.state_context (rest_from s0)) m

  pub sub :
      (s : MultiSig E)
      → Since host.state_context (whole_from s0) s
      → Since host.state_context (rest_from s0) s
  sub s i = Since-rest host.state_context s0 s i

  Leads-take_signed_tx : (tx_bytes : String) → Ends (take_signed_tx host tx_bytes)
  unfolding take_signed_tx
  Leads-take_signed_tx tx_bytes = Leads-lift_bind sub (E.sigma_parse_bytes tx_bytes) λ tx _.
      Leads-bind sub
        (Gives-get_queued_transaction host host.state_context (whole_from s0) (E.transaction_id tx)
          refl)
        λ t e. Leads-lift_bind sub (verify_input E host.state_context tx t.boxes) λ valid v.
          Leads-bind sub
            (Gives-modifies (settle_signed host valid t tx)
              λ s i. Since-settle_signed valid t tx s e v i)
            λ _ _.
              Leads-bind sub (Gives-set_locked host.state_context (whole_from s0) false)
                λ _ _. Leads-delete host.state_context s0 (E.transaction_id tx)

  pub Leads-handle_signed_tx : (tx_bytes : String) → Ends (handle_signed_tx host tx_bytes)
  unfolding handle_signed_tx
  Leads-handle_signed_tx tx_bytes = Leads-caught (Leads-take_signed_tx tx_bytes)

  Leads-complete_sign :
      (t : TxQueued E) (tx : E.Reduced) (simulated_bag : E.Bag)
      → Ends (complete_sign host t tx simulated_bag)
  unfolding complete_sign
  Leads-complete_sign t tx simulated_bag =
      Leads-lift_bind sub (all_hints host t simulated_bag (E.reduced_inputs_len tx)) λ hints _.
        Leads-lift_bind sub (E.sign_multi host.entropy (get_empty_prover E) tx hints) λ signed _.
          Leads-bind sub (Gives-set_locked host.state_context (whole_from s0) false) λ _ _.
            Leads-step (handle_signed_tx host (E.sigma_serialize_bytes signed)) tt
              (λ s i. (
                unfold handle_signed_tx in refl,
                (Leads-handle_signed_tx (E.sigma_serialize_bytes signed)).led s i,
              ))
              λ _ _.
                Leads-Gives (λ s i. i)
                  (Gives-bind (Gives-get_pk host.state_context (rest_from s0)) λ my_pub _.
                    Gives-bind (Gives-peers_with_ids host host.state_context (rest_from s0))
                      λ peers _. Gives-on_comm host.state_context (rest_from s0) (
                        send_message host.enc host.now signed_tx_message
                          (signed_tx (E.sigma_serialize_bytes signed))
                          (ids_of (keep_if (λ (peer : Signer). not (peer.pub_key == my_pub)) peers))
                          (some (get_date host.now))))

  Leads-add_proof :
      (proof : PublishedProof) (tx_id : String) (index : ℕ) (t : TxQueued E) (tx : E.Reduced)
      (simulated_bag : E.Bag)
      → Entry host.state_context (whole_from s0) tx_id t
      → Ends (add_proof host proof tx_id index t tx simulated_bag)
  unfolding add_proof
  Leads-add_proof proof tx_id index t tx simulated_bag e =
      Leads-bind sub (Gives-read (λ s. s.guards_pk)) λ guards_pk _.
        Leads-lift_bind sub (key_at guards_pk (some index)) λ pub_key _.
          let t' = record t { signs = insert pub_key proof t.signs } in
          Leads-bind sub
            (Gives-put host.state_context (whole_from s0) tx_id t'
              record { from = e.from; peer = e.peer })
            λ _ _.
              Leads-if (leb t.required_signer (length (insert pub_key proof t.signs)))
                (λ _. Leads-complete_sign t' tx simulated_bag)
                (λ _. Leads-Gives sub (Gives-set_locked host.state_context (whole_from s0) false))

  Leads-add_if_ready :
      (proof : PublishedProof) (tx_id : String) (index : ℕ) (t : TxQueued E) (tx : Option E.Reduced)
      (simulated_bag : Option E.Bag)
      → Entry host.state_context (whole_from s0) tx_id t
      → Ends (add_if_ready host proof tx_id index t tx simulated_bag)
  unfolding add_if_ready
  Leads-add_if_ready proof tx_id index t none bag e =
      Leads-Gives sub (Gives-set_locked host.state_context (whole_from s0) false)
  Leads-add_if_ready proof tx_id index t (some tx) none e =
      Leads-Gives sub (Gives-set_locked host.state_context (whole_from s0) false)
  Leads-add_if_ready proof tx_id index t (some tx) (some bag) e =
      Leads-add_proof proof tx_id index t tx bag e

  Leads-take_proof :
      (proof : PublishedProof) (tx_id : String) (index : ℕ)
      → Ends (take_proof host proof tx_id index)
  unfolding take_proof
  Leads-take_proof proof tx_id index =
      Leads-bind sub
        (Gives-get_queued_transaction host host.state_context (whole_from s0) tx_id refl)
        λ t e. Leads-add_if_ready proof tx_id index t t.tx t.simulated_bag e

  pub Leads-handle_sign :
      (proof : PublishedProof) (tx_id : String) (index : ℕ)
      → Ends (handle_sign host proof tx_id index)
  unfolding handle_sign
  Leads-handle_sign proof tx_id index = Leads-caught (Leads-take_proof proof tx_id index)
