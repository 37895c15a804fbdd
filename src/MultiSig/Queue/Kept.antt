-- ===== src/MultiSig/Queue/Kept.antt =====
-- What the methods of the queue leave of its requests.
use sign_protocols.Prelude.{◌≡◌, ℕ, String, refl, Option, none, some, [], ◌∷◌, inr, true, length}
use sign_protocols.Prelude.Maps.{insert, lookup}
use sign_protocols.Exec.{Result}
use sign_protocols.Exec.Triples.{
  Gives, Anything, Gives-bind, Gives-pure, Gives-skip, Gives-lift_bind, Gives-if,
}
use sign_protocols.Communicator.{send_message, get_date}
use sign_protocols.MultiSig.Data.{commitment, commitment_message, multi_sig_payload_json}
use sign_protocols.MultiSig.Ergo.{ErgoLib}
use sign_protocols.MultiSig.State.{TxQueued, MultiSigHost}
use sign_protocols.MultiSig.Hints.{to_reduced_published_commitments}
use sign_protocols.MultiSig.Since.{
  Origin, Since, Entry, Found, IsPeerIndex, Gives-on_comm, Gives-put, Gives-acquire, Gives-lookup,
}
use sign_protocols.MultiSig.Turns.Kept.{Gives-turn_ind, Gives-get_current_turn_id, Gives-is_my_turn}
use sign_protocols.MultiSig.Queue.Keys.{get_pk-Gives, get_prover-Gives}
use sign_protocols.MultiSig.Queue.{
  get_pk, get_prover, new_transaction, queued_or_new, get_queued_transaction, commit_to,
  commit_if_set, commit_if_queued, commit_with, generate_commitment,
}

module _ {E : ErgoLib} (context : Result E.Context) (s0 : Origin E) where
  pub Gives-get_pk : Gives (Since context s0) Anything get_pk
  Gives-get_pk = get_pk-Gives λ key s i. record {
    peers = i.peers;
    present = i.present;
    distinct = i.distinct;
    entries = i.entries;
    calls = i.calls;
  }

  pub Gives-get_prover : Gives (Since context s0) Anything get_prover
  Gives-get_prover = get_prover-Gives λ prover s i. record {
    peers = i.peers;
    present = i.present;
    distinct = i.distinct;
    entries = i.entries;
    calls = i.calls;
  }

  new-Entry :
      (now : ℕ) (tx_id : String)
      → lookup tx_id s0.transactions ≡ none
      → Entry context s0 tx_id (new_transaction now)
  new-Entry now tx_id h = record { from = inr ((refl, refl, refl), h); peer = tt }

  Gives-queued_or_new :
      (now : ℕ) (tx_id : String) (found : Option (TxQueued E))
      → s0.whole ≡ true
      → Found context s0 tx_id found
      → Gives (Since context s0) (Entry context s0 tx_id) (queued_or_new now tx_id found)
  unfolding queued_or_new
  Gives-queued_or_new now tx_id (some t) w f = Gives-pure t f
  Gives-queued_or_new now tx_id none w f =
      Gives-bind (Gives-put context s0 tx_id (new_transaction now) (new-Entry now tx_id (f w)))
        λ _ _. Gives-pure (new_transaction now) (new-Entry now tx_id (f w))

module _ {E : ErgoLib} (host : MultiSigHost E) (context : Result E.Context) (s0 : Origin E) where
  pub Gives-get_queued_transaction :
      (tx_id : String)
      → s0.whole ≡ true
      → Gives (Since context s0) (Entry context s0 tx_id) (get_queued_transaction host tx_id)
  unfolding get_queued_transaction
  Gives-get_queued_transaction tx_id w = Gives-bind (Gives-acquire context s0) λ _ _.
      Gives-bind (Gives-lookup context s0 tx_id)
        λ found f. Gives-queued_or_new context s0 host.now tx_id found w f

  Gives-commit_to :
      (tx_id : String) (turn : Option ℕ) (turn_id : String) (t : TxQueued E) (tx : E.Reduced)
      → IsPeerIndex (length s0.guards_pk) turn
      → Entry context s0 tx_id t
      → Gives (Since context s0) Anything (commit_to host tx_id turn turn_id t tx)
  unfolding commit_to
  Gives-commit_to tx_id turn turn_id t tx p e =
      Gives-bind
        (Gives-put context s0 tx_id (record t { coordinator = turn })
          (record { from = e.from; peer = p }))
        λ _ _. Gives-bind (Gives-get_prover context s0) λ prover _.
          Gives-lift_bind (E.generate_commitments host.entropy prover tx) λ secret.
            Gives-bind
              (Gives-put context s0 tx_id (record t { coordinator = turn; secret = some secret })
                (record { from = e.from; peer = p }))
              λ _ _. Gives-bind (Gives-get_pk context s0) λ my_pub _.
                let published = to_reduced_published_commitments E secret my_pub in
                Gives-bind
                  (Gives-put context s0 tx_id
                    (record t {
                      coordinator = turn;
                      secret = some secret;
                      commitments = insert my_pub published t.commitments;
                    })
                    (record { from = e.from; peer = p }))
                  λ _ _. Gives-bind (Gives-is_my_turn host context s0) λ mine _.
                    Gives-if mine (λ _. Gives-skip)
                      (λ _. Gives-on_comm context s0 (
                        send_message host.enc host.now commitment_message
                          (commitment tx_id published) (turn_id ∷ []) (some (get_date host.now))))

  Gives-commit_if_set :
      (tx_id : String) (turn : Option ℕ) (turn_id : String) (t : TxQueued E) (tx : Option E.Reduced)
      → IsPeerIndex (length s0.guards_pk) turn
      → Entry context s0 tx_id t
      → Gives (Since context s0) Anything (commit_if_set host tx_id turn turn_id t tx)
  unfolding commit_if_set
  Gives-commit_if_set tx_id turn turn_id t none p e = Gives-skip
  Gives-commit_if_set tx_id turn turn_id t (some tx) p e =
      Gives-commit_to tx_id turn turn_id t tx p e

  Gives-commit_if_queued :
      (tx_id : String) (turn : Option ℕ) (turn_id : String) (found : Option (TxQueued E))
      → IsPeerIndex (length s0.guards_pk) turn
      → Found context s0 tx_id found
      → Gives (Since context s0) Anything (commit_if_queued host tx_id turn turn_id found)
  unfolding commit_if_queued
  Gives-commit_if_queued tx_id turn turn_id none p e = Gives-skip
  Gives-commit_if_queued tx_id turn turn_id (some t) p e =
      Gives-commit_if_set tx_id turn turn_id t t.tx p e

  Gives-commit_with :
      (tx_id : String) (turn : Option ℕ) (turn_id : Option String)
      → IsPeerIndex (length s0.guards_pk) turn
      → Gives (Since context s0) Anything (commit_with host tx_id turn turn_id)
  unfolding commit_with
  Gives-commit_with tx_id turn none p = Gives-skip
  Gives-commit_with tx_id turn (some turn_id) p =
      Gives-bind (Gives-lookup context s0 tx_id)
        λ found f. Gives-commit_if_queued tx_id turn turn_id found p f

  pub Gives-generate_commitment :
      (tx_id : String) → Gives (Since context s0) Anything (generate_commitment host tx_id)
  unfolding generate_commitment
  Gives-generate_commitment tx_id = Gives-bind (Gives-turn_ind host context s0) λ turn p.
      Gives-bind (Gives-get_current_turn_id host context s0)
        λ turn_id _. Gives-commit_with tx_id turn turn_id p
