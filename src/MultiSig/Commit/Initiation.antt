-- ===== src/MultiSig/Commit/Initiation.antt =====
-- When a commitment makes the guard initiate the signing, and what it sends then.
use sign_protocols.Prelude.{
  ℕ, ◌<◌, ◌≤◌, String, ◌≡◌, ◌⊎◌, inl, inr, refl, sym, ap, ◌∙◌, Option, none, some, true, false,
  length, leb, ltb, Option-cases, ◌==◌, ltb→lt, leb→le, Bool-cases,
}
use sign_protocols.Prelude.Maps.{lookup, insert}
use sign_protocols.Exec.{ok, Result-value}
use sign_protocols.Exec.Triples.{
  Leads, Leads-bind, Leads-if, Leads-Gives, Leads-weaken, Leads-caught, Gives-skip,
}
use sign_protocols.Communicator.Index.{outbox-get_index}
use sign_protocols.MultiSig.Data.{PublishedCommitment, multi_sig_payload_json}
use sign_protocols.MultiSig.Ergo.{ErgoLib}
use sign_protocols.MultiSig.State.{TxQueued, MultiSig, MultiSigHost}
use mathlib.Core.Path.{subst}
use sign_protocols.MultiSig.Turns.Lookups.{get_current_turn_id-Gives, is_my_turn-state}
use sign_protocols.MultiSig.Turns.{key_at, get_current_turn_id, is_my_turn}
use sign_protocols.MultiSig.Queue.{get_queued_transaction}
use sign_protocols.MultiSig.Commit.{
  add_commitment, commit_if_ready, take_commitment, commit_in_turn, handle_commitment,
}
use sign_protocols.MultiSig.Commit.Initiated.{
  AtMostInitiated, Unsent, Initiated, Unsent-get_pk, Unsent-put, Leads-initiate,
}

module _ {E : ErgoLib} (host : MultiSigHost E) (s0 : MultiSig E) where
  -- the entry with one more commitment
  abbrev pub committed : PublishedCommitment → String → String → TxQueued E → TxQueued E
  committed commitment signature pub_key t = record t {
    commitments = insert pub_key commitment t.commitments;
    commitment_signs = insert pub_key signature t.commitment_signs;
  }

  -- Nothing is sent, or there were too few commitments and there are enough now, and the signing is
  -- initiated.
  abbrev Committed : String → TxQueued E → TxQueued E → E.Reduced → MultiSig E → Type 0
  Committed tx_id t t' tx s =
      (s.outbox ≡ s0.outbox)
      ⊎ ((length t.commitments < t.required_signer)
          × (t.required_signer ≤ length t'.commitments)
          × Initiated host s0 tx_id t' tx s)

  Leads-add_commitment :
      (tx_id : String) (commitment : PublishedCommitment) (signature pub_key : String)
      (t : TxQueued E) (tx : E.Reduced) (secret : E.Bag)
      → length t.commitments < t.required_signer
      → Leads
          (Unsent s0)
          (Committed tx_id t (committed commitment signature pub_key t) tx)
          (add_commitment host tx_id commitment signature pub_key t tx secret)
  unfolding add_commitment
  Leads-add_commitment tx_id commitment signature pub_key t tx secret l =
      let t' = committed commitment signature pub_key t in
      let sub = λ (s : MultiSig E) (u : Unsent s0 s). inl u.0 in
      Leads-bind sub (Unsent-put host s0 tx_id t') λ _ _.
        Leads-bind sub (Unsent-get_pk host s0) λ my_pub _.
          Leads-if (leb t.required_signer (length (insert pub_key commitment t.commitments)))
            (λ b.
              Leads-weaken (started (leb→le _ _ b))
                (Leads-initiate host s0 tx_id t' tx secret my_pub))
            (λ _. Leads-Gives sub Gives-skip)
    where
      started :
          t.required_signer ≤ length (insert pub_key commitment t.commitments)
          → (s : MultiSig E)
          → AtMostInitiated host s0 tx_id (committed commitment signature pub_key t) tx s
          → Committed tx_id t (committed commitment signature pub_key t) tx s
      started k s (inl e) = inl e
      started k s (inr i) = inr (l, k, i)

-- What is true when a commitment of the guard at `index` made this guard, in state `s`, send
-- something: it was this guard's turn, the transaction was queued and this guard had committed to
-- it, there were fewer commitments than are required and with this one there are enough, and one
-- message that initiates the signing by the guards that committed was sent.
pub record Initiation {E : ErgoLib} (host : MultiSigHost E) (s : MultiSig E) (tx_id : String)
    (commitment : PublishedCommitment) (signature : String) (index : ℕ) (s' : MultiSig E)
    : Type 0 where
  pub turn : (is_my_turn host s).0 ≡ ok true
  pub t : TxQueued E
  pub queued : lookup tx_id s.transactions ≡ some t
  pub tx : E.Reduced
  pub has_tx : t.tx ≡ some tx
  pub secret : E.Bag
  pub has_secret : t.secret ≡ some secret
  pub pub_key : String
  pub sender : key_at s.guards_pk (some index) ≡ ok pub_key
  pub too_few : length t.commitments < t.required_signer
  pub enough : t.required_signer ≤ length (insert pub_key commitment t.commitments)
  pub initiated :
      Initiated host s tx_id
        (record t {
          commitments = insert pub_key commitment t.commitments;
          commitment_signs = insert pub_key signature t.commitment_signs;
        })
        tx
        s'

module _ {E : ErgoLib} (host : MultiSigHost E) (s0 : MultiSig E) (tx_id : String)
    (commitment : PublishedCommitment) (signature : String) (index : ℕ) where
  abbrev AtMostInitiation : MultiSig E → Type 0
  AtMostInitiation s =
      (s.outbox ≡ s0.outbox) ⊎ Initiation host s0 tx_id commitment signature index s

  unlock : (s : MultiSig E) → AtMostInitiation s → AtMostInitiation (record s { locked = false })
  unlock s (inl e) = inl e
  unlock s (inr i) = inr record {
    turn = i.turn;
    t = i.t;
    queued = i.queued;
    tx = i.tx;
    has_tx = i.has_tx;
    secret = i.secret;
    has_secret = i.has_secret;
    pub_key = i.pub_key;
    sender = i.sender;
    too_few = i.too_few;
    enough = i.enough;
    initiated = record {
      submission = i.initiated.submission;
      sent = i.initiated.sent;
      kind = i.initiated.kind;
      hints = i.initiated.hints;
      sim_hints = i.initiated.sim_hints;
      simulated = i.initiated.simulated;
      payload = i.initiated.payload;
    };
  }

  module _ (turn : (is_my_turn host s0).0 ≡ ok true) (pub_key : String)
      (sender : key_at s0.guards_pk (some index) ≡ ok pub_key) (t : TxQueued E)
      (queued : lookup tx_id s0.transactions ≡ some t) where
    commit_ready :
        (tx : E.Reduced) (secret : E.Bag)
        → t.tx ≡ some tx
        → t.secret ≡ some secret
        → (s : MultiSig E)
        → Committed host s0 tx_id t (committed host s0 commitment signature pub_key t) tx s
        → AtMostInitiation s
    commit_ready tx secret a b s (inl e) = inl e
    commit_ready tx secret a b s (inr (l, k, i)) = inr record {
      turn = turn;
      t = t;
      queued = queued;
      tx = tx;
      has_tx = a;
      secret = secret;
      has_secret = b;
      pub_key = pub_key;
      sender = sender;
      too_few = l;
      enough = k;
      initiated = i;
    }

    Leads-commit_if_ready :
        (tx : Option E.Reduced) (secret : Option E.Bag)
        → t.tx ≡ tx
        → t.secret ≡ secret
        → Leads
            (Unsent s0)
            AtMostInitiation
            (commit_if_ready host tx_id commitment signature pub_key t tx secret)
    unfolding commit_if_ready
    Leads-commit_if_ready none secret a b = record { led = λ s u. inl u.0 }
    Leads-commit_if_ready (some tx) none a b = record { led = λ s u. inl u.0 }
    Leads-commit_if_ready (some tx) (some secret) a b = record {
      led = λ s u. elim (Bool-cases (ltb (length t.commitments) t.required_signer)) [
        | inl e ↦ rw e (
            unlock _ (
              (Leads-weaken (commit_ready tx secret a b) (
                  Leads-caught (
                    Leads-add_commitment host s0 tx_id commitment signature pub_key t tx secret
                      (ltb→lt _ _ e)))).led
                s u))
        | inr e ↦ rw e (inl u.0)
      ];
    }

  Leads-take_commitment :
      (is_my_turn host s0).0 ≡ ok true
      → (s : MultiSig E) → Unsent s0 s
      → s.transactions ≡ s0.transactions
      → AtMostInitiation (take_commitment host tx_id commitment signature index s).1
  unfolding take_commitment get_queued_transaction
  Leads-take_commitment turn s u q = elim (Result-value (key_at s.guards_pk (some index))) [
    | inr (x, e) ↦ rw e (inl u.0)
    | inl (pub_key, e) ↦ elim (Bool-cases s.locked) [
      | inl l ↦ rw (e, l) (inl u.0)
      | inr l ↦ elim (Option-cases (lookup tx_id s.transactions)) [
        | inl f ↦ rw (e, l, f) (inl u.0)
        | inr (t, f) ↦
            rw (e, l, f)
              ((Leads-commit_if_ready turn pub_key (ap (λ ks. key_at ks (some index)) (sym u.1) ∙ e)
                  t (ap (lookup tx_id) (sym q) ∙ f) t.tx t.secret refl refl).led
                (record s { locked = true }) u)
      ]
    ]
  ]

module _ {E : ErgoLib} (host : MultiSigHost E) where
  -- A commitment makes a guard send at most one message, whatever is thrown on the way, and only
  -- in its own turn, for a queued transaction to which it has itself committed, when there were
  -- fewer commitments than are required and there are enough with the sender's: then the message
  -- initiates the signing, names the guards that committed by their indices, with their
  -- commitments, and has the simulated commitments and proofs of all the other guards, which are
  -- those that ergo-lib extracts from a signing of the transaction by nobody with the commitments.
  pub handle_commitment-Initiation :
      (tx_id : String) (commitment : PublishedCommitment) (signature : String) (index : ℕ)
      (s : MultiSig E)
      → ((handle_commitment host tx_id commitment signature index s).1.outbox ≡ s.outbox)
        ⊎ Initiation host s tx_id commitment signature index
            (handle_commitment host tx_id commitment signature index s).1
  unfolding handle_commitment commit_in_turn get_current_turn_id
  handle_commitment-Initiation tx_id commitment signature index s =
      let u : Unsent s (is_my_turn host s).1 =
        subst (Unsent s) (sym (is_my_turn-state host s)) (outbox-get_index host.enc s.comm, refl) in
      let q : (is_my_turn host s).1.transactions ≡ s.transactions =
        ap (λ s1. s1.transactions) (is_my_turn-state host s) in
      elim (Result-value (is_my_turn host s).0) [
        | inr (x, e) ↦ rw e (inl u.0)
        | inl (mine, e) ↦ elim (Bool-cases mine) [
          | inr f ↦
              rw (e, f)
                (inl
                  ((get_current_turn_id-Gives host {I = Unsent s} λ d s1 u. u).given
                    (is_my_turn host s).1 u).1.0)
          | inl f ↦ elim (Bool-cases (tx_id == "")) [
            | inl g ↦ rw (e, f, g) (inl u.0)
            | inr g ↦
                rw (e, f, g)
                  (Leads-take_commitment host s tx_id commitment signature index (e ∙ ap ok f)
                    (is_my_turn host s).1 u q)
          ]
        ]
      ]
