-- ===== src/MultiSig/Commit/Starting.antt =====
-- When a commitment is sure to make the guard initiate the signing.
use sign_protocols.Prelude.{
  ℕ, ◌<◌, ◌≤◌, String, ◌≡◌, refl, ap, some, true, false, length, leb, ◌==◌, arith, Bool, ltb, inl,
  inr,
}
use sign_protocols.Prelude.Maps.{lookup, insert}
use sign_protocols.Exec.{ok, skip, Result-value}
use sign_protocols.Exec.Triples.{Leads, Leads-if, Leads-step}
use sign_protocols.Communicator.{get_index}
use sign_protocols.Communicator.Index.{outbox-get_index, get_index-again}
use sign_protocols.MultiSig.Data.{PublishedCommitment, multi_sig_payload_json}
use sign_protocols.Detection.State.{detection_payload_json}
use sign_protocols.MultiSig.Ergo.{ErgoLib}
use sign_protocols.MultiSig.State.{put, TxQueued, MultiSig, MultiSigHost}
use sign_protocols.MultiSig.Turns.{key_at, is_my_turn}
use sign_protocols.MultiSig.Turns.Lookups.{is_my_turn-state}
use sign_protocols.MultiSig.Queue.{get_queued_transaction}
use sign_protocols.MultiSig.Queue.Keys.{get_pk-Gives, get_pk-same}
use sign_protocols.MultiSig.Commit.{
  add_commitment, commit_if_ready, take_commitment, commit_in_turn, handle_commitment,
}
use sign_protocols.MultiSig.Commit.Initiated.{Initiated}
use sign_protocols.MultiSig.Commit.Initiation.{committed}
use mathlib.Core.Path.{subst}
use sign_protocols.Prelude.{sym, ◌∙◌}
use sign_protocols.MultiSig.Queue.{get_pk}
use sign_protocols.MultiSig.Commit.{initiate}
use sign_protocols.MultiSig.Commit.Prepared.{Prepared, Ready, Succeeds, Starts-initiate}

module _ {E : ErgoLib} (host : MultiSigHost E) (s0 : MultiSig E) (i j : ℕ) where
  -- and the cached key is that of the beginning
  abbrev Fresh : MultiSig E → Type 0
  Fresh s = Ready host s0 i j s × (s.public_key ≡ s0.public_key)

  Starts-add_commitment :
      (tx_id : String) (commitment : PublishedCommitment) (signature pub_key : String)
      (t : TxQueued E) (tx : E.Reduced) (secret : E.Bag)
      → t.required_signer ≤ length (insert pub_key commitment t.commitments)
      → Succeeds host s0 (committed host s0 commitment signature pub_key t) tx secret
      → Leads Fresh
          (Initiated host s0 tx_id (committed host s0 commitment signature pub_key t) tx)
          (add_commitment host tx_id commitment signature pub_key t tx secret)
  unfolding add_commitment
  Starts-add_commitment tx_id commitment signature pub_key t tx secret enough x =
      let t' = committed host s0 commitment signature pub_key t in
      Leads-step {I' = Fresh} (put tx_id t') tt (λ s f. (refl, f))
        λ _ _.
          Leads-step {I' = Ready host s0 i j} get_pk x.my_pub
            (λ s f. (
              get_pk-same s s0 f.0.1 f.1 ∙ x.own,
              ((get_pk-Gives {I = Ready host s0 i j} λ key s r. r).given s f.0).1,
            ))
            λ my_pub q.
              Leads-if (leb t.required_signer (length (insert pub_key commitment t.commitments)))
                {k = skip}
                (λ _.
                  subst
                    (λ key.
                      Leads (Ready host s0 i j) (Initiated host s0 tx_id t' tx)
                        (initiate host tx_id t' tx secret key))
                    (sym q) (Starts-initiate host s0 i j tx_id t' tx secret x))
                (λ b. absurd (enough_leb b))
    where
      enough_leb :
          leb t.required_signer (length (insert pub_key commitment t.commitments)) ≡ false → ⊥
      enough_leb b = ground (arith, b, enough)

  Starts-commit_if_ready :
      (tx_id : String) (commitment : PublishedCommitment) (signature pub_key : String)
      (t : TxQueued E) (tx : E.Reduced) (secret : E.Bag)
      → length t.commitments < t.required_signer
      → t.required_signer ≤ length (insert pub_key commitment t.commitments)
      → Succeeds host s0 (committed host s0 commitment signature pub_key t) tx secret
      → Leads Fresh
          (Initiated host s0 tx_id (committed host s0 commitment signature pub_key t) tx)
          (commit_if_ready host tx_id commitment signature pub_key t (some tx) (some secret))
  unfolding commit_if_ready
  Starts-commit_if_ready tx_id commitment signature pub_key t tx secret few enough x =
      let h : ltb (length t.commitments) t.required_signer ≡ true = ground (arith, few) in
      record {
        led = λ s p.
            let o =
              (Starts-add_commitment tx_id commitment signature pub_key t tx secret enough x).led s
                p in
            rw h record {
              submission = o.submission;
              sent = o.sent;
              kind = o.kind;
              hints = o.hints;
              sim_hints = o.sim_hints;
              simulated = o.simulated;
              payload = o.payload;
            };
      }

  Starts-take_commitment :
      (tx_id : String) (commitment : PublishedCommitment) (signature : String) (index : ℕ)
      (pub_key : String) (t : TxQueued E) (tx : E.Reduced) (secret : E.Bag) (s : MultiSig E)
      → Fresh s
      → s.locked ≡ false
      → key_at s.guards_pk (some index) ≡ ok pub_key
      → lookup tx_id s.transactions ≡ some t
      → t.tx ≡ some tx
      → t.secret ≡ some secret
      → length t.commitments < t.required_signer
      → t.required_signer ≤ length (insert pub_key commitment t.commitments)
      → Succeeds host s0 (committed host s0 commitment signature pub_key t) tx secret
      → Initiated host s0 tx_id
          (committed host s0 commitment signature pub_key t)
          tx
          (take_commitment host tx_id commitment signature index s).1
  unfolding take_commitment get_queued_transaction
  Starts-take_commitment tx_id commitment signature index pub_key t tx secret s p free sender queued
        has_tx has_secret few enough x =
      let t' = committed host s0 commitment signature pub_key t in
      rw (sender, free, queued)
        ((subst
            (λ o.
              Leads Fresh (Initiated host s0 tx_id t' tx)
                (commit_if_ready host tx_id commitment signature pub_key t o t.secret))
            (sym has_tx)
            (subst
              (λ o.
                Leads Fresh (Initiated host s0 tx_id t' tx)
                  (commit_if_ready host tx_id commitment signature pub_key t (some tx) o))
              (sym has_secret)
              (Starts-commit_if_ready tx_id commitment signature pub_key t tx secret few enough
                x))).led
          (record s { locked = true }) p)

module _ {E : ErgoLib} (host : MultiSigHost E) where
  turn-get_index :
      (s : MultiSig E) (mine : Bool)
      → (is_my_turn host s).0 ≡ ok mine
      → (i : ℕ) × ((get_index host.enc s.comm).0 ≡ ok i)
  unfolding is_my_turn
  turn-get_index s mine h = elim (Result-value (get_index host.enc s.comm).0) [
    | inl (i, e) ↦ (i, e)
    | inr (x, e) ↦ absurd (ground (arith, h, e))
  ]

  -- The commitment that completes the required number does make the guard initiate the signing:
  -- in its own turn, if the semaphore is free, the transaction is queued and this guard has
  -- committed to it, the sender is a guard, there were fewer commitments than are required and there
  -- are enough with the sender's, ergo-lib answers the calls that are made for these commitments,
  -- the guard's own key and prover are known or derived, and the detection finds this guard among
  -- its keys, then one message is sent, which initiates the signing by the guards that committed,
  -- with the simulated parts that ergo-lib extracts for the others.
  pub handle_commitment-starts :
      (tx_id : String) (commitment : PublishedCommitment) (signature : String) (index : ℕ)
      (s : MultiSig E) (pub_key : String) (t : TxQueued E) (tx : E.Reduced) (secret : E.Bag) (j : ℕ)
      → s.locked ≡ false
      → (tx_id == "") ≡ false
      → (is_my_turn host s).0 ≡ ok true
      → (get_index host.enc s.detection.comm).0 ≡ ok j
      → key_at s.guards_pk (some index) ≡ ok pub_key
      → lookup tx_id s.transactions ≡ some t
      → t.tx ≡ some tx
      → t.secret ≡ some secret
      → length t.commitments < t.required_signer
      → t.required_signer ≤ length (insert pub_key commitment t.commitments)
      → Succeeds host s
          (record t {
            commitments = insert pub_key commitment t.commitments;
            commitment_signs = insert pub_key signature t.commitment_signs;
          })
          tx
          secret
      → Initiated host s tx_id
          (record t {
            commitments = insert pub_key commitment t.commitments;
            commitment_signs = insert pub_key signature t.commitment_signs;
          })
          tx
          (handle_commitment host tx_id commitment signature index s).1
  unfolding handle_commitment commit_in_turn
  handle_commitment-starts tx_id commitment signature index s pub_key t tx secret j free named turn
        found sender queued has_tx has_secret few enough x =
      let (i, e) = turn-get_index s true turn in
      let p : Prepared host s i j (record s { comm = (get_index host.enc s.comm).1 }) = (
        (outbox-get_index host.enc s.comm, refl),
        ap (λ r. r.0) (get_index-again host.enc s.comm i e),
        found,
      ) in
      rw (turn, named, is_my_turn-state host s)
        (Starts-take_commitment host s i j tx_id commitment signature index pub_key t tx secret _
          ((p, refl, refl), refl) free sender queued has_tx has_secret few enough x)
