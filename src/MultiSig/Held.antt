-- ===== src/MultiSig/Held.antt =====
-- What happens while the semaphore of the queue is taken: no promise is resolved or rejected, and
-- it stays taken.
pub mod Messages
use sign_protocols.Prelude.{
  arith, inl, inr, Bool-cases, is_empty, ℕ, String, ◌≡◌, refl, ap, ◌∙◌, Option, none, some, List,
  [], ◌∷◌, Bool, true, false, not, ◌&&◌, ◌==◌,
}
use sign_protocols.Prelude.Maps.{lookup, insert, keys}
use sign_protocols.Exec.{Exec, ◌>>=◌}
use sign_protocols.Exec.Triples.{
  Gives, Anything, Answers-Anything, Gives-bind, Gives-lift_bind, Gives-read, Gives-modifies,
  Gives-skip, Gives-if, Gives-raise, Gives-caught, Gives-for_each,
}
use sign_protocols.Communicator.{
  Communicator, CommunicationMessage, get_index, send_message, get_date, change_pks,
}
use sign_protocols.Communicator.Handling.{handle_message-ends}
use sign_protocols.Tss.Turns.{is_turn}
use sign_protocols.MultiSig.Data.{
  InitiateSignPayload, MultiSigPayload, PublishedCommitment, PublishedProof, generate_commitment,
  commitment, initiate_sign, sign, signed_tx, generate_commitment_message, commitment_message,
  initiate_sign_message, sign_message, signed_tx_message, multi_sig_payload_json,
}
use sign_protocols.MultiSig.Ergo.{ErgoLib}
use sign_protocols.MultiSig.State.{TxQueued, MultiSig, MultiSigHost, on_comm, put, acquire}
use sign_protocols.MultiSig.Hints.{to_reduced_published_commitments}
use sign_protocols.MultiSig.Turns.{
  key_at, ids_of, get_current_turn_ind, is_my_turn, get_current_turn_id, peers_with_ids,
  peers_must_be_initialized,
}
use sign_protocols.MultiSig.Turns.Lookups.{peers_with_ids-Gives, get_current_turn_id-Gives}
use sign_protocols.MultiSig.Queue
use sign_protocols.MultiSig.Queue.{
  get_pk, get_prover, get_queued_transaction, commit_to, commit_if_set, commit_if_queued,
  commit_with,
}
use sign_protocols.MultiSig.Queue.Keys.{get_pk-Gives, get_prover-Gives}
use sign_protocols.MultiSig.Commit.{
  commit_if_ready, take_commitment, commit_in_turn, handle_commitment,
}
use sign_protocols.MultiSig.Signing
use sign_protocols.MultiSig.Signing.{
  sign_if_ready, answer_initiate, take_signed_tx, handle_signed_tx, add_if_ready, take_proof,
  handle_sign,
}
use sign_protocols.MultiSig.Dispatch.{
  restarted, coordinate, coordinate_in_turn, restart, handle_my_turn_for_tx, all_my_turn,
  handle_my_turn, dispatch, process_message, receive,
}

module _ {E : ErgoLib} (s0 : MultiSig E) where
  -- the semaphore is taken, and the calls of the promises are those of `s0`
  abbrev pub Held : MultiSig E → Type 0
  Held s = (s.locked ≡ true) × (s.settled ≡ s0.settled)

  Held-on_comm :
      {A : Type 0} (m : Exec (Communicator MultiSigPayload) A) → Gives Held Anything (on_comm m)
  Held-on_comm m = record { given = λ s h. (Answers-Anything (m s.comm).0, h) }

  Held-put : (tx_id : String) (t : TxQueued E) → Gives Held Anything (put tx_id t)
  Held-put tx_id t = Gives-modifies _ λ s h. h

  Held-get_pk : Gives Held Anything get_pk
  Held-get_pk = get_pk-Gives λ key s h. h

  Held-get_prover : Gives Held Anything get_prover
  Held-get_prover = get_prover-Gives λ prover s h. h

  -- what waits for the semaphore is not run
  Held-acquire :
      {A : Type 0} (f : Unit {0} → Exec (MultiSig E) A) → Gives Held Anything (acquire >>= f)
  Held-acquire f = record { given = λ s h. simp (h.0) (tt, (refl, h.1)) }

module _ {E : ErgoLib} (host : MultiSigHost E) (s0 : MultiSig E) where
  pub Held-is_my_turn : Gives (Held s0) Anything (is_my_turn host)
  unfolding is_my_turn
  Held-is_my_turn =
      Gives-bind (Held-on_comm s0 (get_index host.enc))
        λ index _. Gives-read (λ s. is_turn (get_current_turn_ind host s) index)

  pub Held-get_current_turn_id : Gives (Held s0) Anything (get_current_turn_id host)
  Held-get_current_turn_id = get_current_turn_id-Gives host λ d s h. h

  Held-peers_with_ids : Gives (Held s0) Anything (peers_with_ids host)
  Held-peers_with_ids = peers_with_ids-Gives host λ d s h. h

  pub Held-peers_must_be_initialized : Gives (Held s0) Anything (peers_must_be_initialized host)
  unfolding peers_must_be_initialized
  Held-peers_must_be_initialized = record { given = λ s h. ground (arith, h) }

  pub Held-get_queued_transaction :
      {A : Type 0} (tx_id : String) (f : TxQueued E → Exec (MultiSig E) A)
      → Gives (Held s0) Anything (get_queued_transaction host tx_id >>= f)
  unfolding get_queued_transaction
  Held-get_queued_transaction tx_id f = record { given = λ s h. simp (h.0) (tt, (refl, h.1)) }

  Held-commit_to :
      (tx_id : String) (turn : Option ℕ) (turn_id : String) (t : TxQueued E) (tx : E.Reduced)
      → Gives (Held s0) Anything (commit_to host tx_id turn turn_id t tx)
  unfolding commit_to
  Held-commit_to tx_id turn turn_id t tx =
      Gives-bind (Held-put s0 tx_id (record t { coordinator = turn })) λ _ _.
        Gives-bind (Held-get_prover s0) λ prover _.
          Gives-lift_bind (E.generate_commitments host.entropy prover tx) λ secret.
            Gives-bind (Held-put s0 tx_id (record t { coordinator = turn; secret = some secret }))
              λ _ _. Gives-bind (Held-get_pk s0) λ my_pub _.
                let published = to_reduced_published_commitments E secret my_pub in
                Gives-bind
                  (Held-put s0 tx_id (record t {
                    coordinator = turn;
                    secret = some secret;
                    commitments = insert my_pub published t.commitments;
                  }))
                  λ _ _. Gives-bind Held-is_my_turn λ mine _.
                    Gives-if mine (λ _. Gives-skip)
                      (λ _. Held-on_comm s0 (
                        send_message host.enc host.now commitment_message
                          (commitment tx_id published) (turn_id ∷ []) (some (get_date host.now))))

  Held-commit_if_queued :
      (tx_id : String) (turn : Option ℕ) (turn_id : String) (found : Option (TxQueued E))
      → Gives (Held s0) Anything (commit_if_queued host tx_id turn turn_id found)
  unfolding commit_if_queued
  Held-commit_if_queued tx_id turn turn_id none = Gives-skip
  Held-commit_if_queued tx_id turn turn_id (some t) = commits t t.tx
    where
      commits :
          (t : TxQueued E) (tx : Option E.Reduced)
          → Gives (Held s0) Anything (commit_if_set host tx_id turn turn_id t tx)
      commits t none = record { given = λ s h. unfold commit_if_set in (tt, h) }
      commits t (some tx) = record {
        given = λ s h. unfold commit_if_set in (Held-commit_to tx_id turn turn_id t tx).given s h;
      }

  Held-commit_with :
      (tx_id : String) (turn : Option ℕ) (turn_id : Option String)
      → Gives (Held s0) Anything (commit_with host tx_id turn turn_id)
  unfolding commit_with
  Held-commit_with tx_id turn none = Gives-skip
  Held-commit_with tx_id turn (some turn_id) =
      Gives-bind (Gives-read (λ s. lookup tx_id s.transactions))
        λ found _. Held-commit_if_queued tx_id turn turn_id found

  pub Held-generate_commitment :
      (tx_id : String) → Gives (Held s0) Anything (Queue.generate_commitment host tx_id)
  unfolding Queue.generate_commitment
  Held-generate_commitment tx_id =
      Gives-bind (Gives-read (get_current_turn_ind host)) λ turn _.
        Gives-bind Held-get_current_turn_id λ turn_id _. Held-commit_with tx_id turn turn_id

  Held-coordinate_in_turn :
      (tx_id : String) (t : TxQueued E) → Gives (Held s0) Anything (coordinate_in_turn host tx_id t)
  unfolding coordinate_in_turn coordinate
  Held-coordinate_in_turn tx_id t = Gives-bind (Held-on_comm s0 (get_index host.enc)) λ my_ind _.
      Gives-bind Held-is_my_turn λ mine _.
        Gives-if (mine && not (is_turn t.coordinator my_ind))
          (λ _. Gives-bind Held-get_current_turn_id λ _ _.
            Gives-bind (Held-put s0 tx_id (record t { coordinator = some my_ind })) λ _ _.
              Gives-bind (Held-generate_commitment tx_id) λ _ _.
                Gives-bind Held-peers_with_ids λ peers _. Held-on_comm s0 (
                  send_message host.enc host.now generate_commitment_message
                    (generate_commitment tx_id) (ids_of peers) (some (get_date host.now))))
          (λ _. Gives-skip)

  Held-restart :
      (tx_id : String) (found : Option (TxQueued E))
      → Gives (Held s0) Anything (restart host tx_id found)
  unfolding restart
  Held-restart tx_id none = Gives-skip
  Held-restart tx_id (some t) =
      Gives-bind (Held-put s0 tx_id (restarted host t))
        λ _ _. Held-coordinate_in_turn tx_id (restarted host t)

  pub Held-handle_my_turn_for_tx :
      (tx_id : String) → Gives (Held s0) Anything (handle_my_turn_for_tx host tx_id)
  unfolding handle_my_turn_for_tx
  Held-handle_my_turn_for_tx tx_id =
      Gives-bind (Gives-read (λ s. lookup tx_id s.transactions)) λ found _. Held-restart tx_id found

  Held-all_my_turn : (mine : Bool) → Gives (Held s0) Anything (all_my_turn host mine)
  unfolding all_my_turn
  Held-all_my_turn false = Gives-skip
  Held-all_my_turn true = Gives-bind Held-get_current_turn_id λ _ _.
      Gives-bind (Gives-read (λ s. keys s.transactions))
        λ tx_ids _. Gives-for_each tx_ids Held-handle_my_turn_for_tx

  pub Held-handle_my_turn : Gives (Held s0) Anything (handle_my_turn host)
  unfolding handle_my_turn
  Held-handle_my_turn = Gives-bind Held-is_my_turn λ mine _. Held-all_my_turn mine
