-- ===== src/MultiSig/Queue/Sound.antt =====
-- That the methods of the queue keep its ids apart and its coordinators among the peers.
use sign_protocols.Prelude.{
  ℕ, String, ◌≡◌, refl, sym, ap, ◌∙◌, Option, some, List, [], ◌∷◌, Bool, true, false, inl, inr,
  arith, length, AllDiffer, Bool-cases, Option-cases, ◌==◌,
}
use sign_protocols.Prelude.Maps.{
  Entries, lookup, erase, keys, lookup-insert, lookup-erase, insert-AllDiffer, erase-AllDiffer,
}
use sign_protocols.Exec.{Result, ok, err}
use sign_protocols.Exec.Triples.{
  Gives, Answers, Anything, Gives-bind, Gives-modifies, Gives-skip, Gives-read, Gives-if,
}
use sign_protocols.Exec.Invariance.{Keeps}
use sign_protocols.MultiSig.Ergo.{ErgoLib}
use sign_protocols.MultiSig.State.{TxQueued, MultiSig, MultiSigHost, Method, put, set_locked}
use sign_protocols.MultiSig.Since.{
  whole_from, Since, Entry, IsSound, IsPeerIndex, Since-refl, IsSound-Since,
}
use sign_protocols.MultiSig.Turns.Kept.{Gives-peers_must_be_initialized}
use sign_protocols.MultiSig.Queue.{
  is_expired, clean_entry, clean_entries, cleanup_if, cleanup, with_request, reject_error,
  or_reject, enqueue, sign,
}
use sign_protocols.MultiSig.Queue.Kept.{Gives-get_queued_transaction, Gives-generate_commitment}
use mathlib.Core.Path.{subst}

-- sound, with as many peers
abbrev pub SoundFor : {E : ErgoLib} → ℕ → MultiSig E → Type 0
SoundFor n s = IsSound s × (length s.guards_pk ≡ n)

module _ {E : ErgoLib} (context : Result E.Context) where
  -- What leaves a queue's requests as they are leaves it sound.
  pub Gives-SoundFor :
      {A : Type 0} {m : Method E A} (n : ℕ) (R : A → Type 0) (Q : MultiSig E → A → Type 0)
      → ((s0 : MultiSig E) → Gives (Since context (whole_from s0)) (Q s0) m)
      → ((s0 : MultiSig E) (r : Result A)
          → length s0.guards_pk ≡ n
          → Answers (Q s0) r
          → Answers R r)
      → Gives (SoundFor n) R m
  Gives-SoundFor n R Q h k = record {
    given = λ s i.
        let (q, j) = (h s).given s (Since-refl context s i.0) in
        (k s _ i.1 q, (IsSound-Since context (whole_from s) _ j, ap length j.peers ∙ i.1));
  }

module _ {E : ErgoLib} where
  SoundFor-put :
      (n : ℕ) (tx_id : String) (t : TxQueued E)
      → IsPeerIndex n t.coordinator
      → Gives (SoundFor n) Anything (put tx_id t)
  SoundFor-put n tx_id t p = Gives-modifies _ λ s i. (
    record {
      distinct = insert-AllDiffer tx_id t s.transactions i.0.distinct;
      coordinators = λ id t' h. elim (Bool-cases (tx_id == id)) [
        | inl b ↦
            let t_eq : t ≡ t' = ground (arith, h, b, lookup-insert tx_id id t s.transactions) in
            subst (λ x. IsPeerIndex (length s.guards_pk) x.coordinator) t_eq
              (subst (λ k. IsPeerIndex k t.coordinator) (sym i.1) p)
        | inr b ↦
            i.0.coordinators id t' (ground (arith, h, b, lookup-insert tx_id id t s.transactions))
      ];
    },
    i.1,
  )

  SoundFor-set_locked : (n : ℕ) (b : Bool) → Gives (SoundFor {E = E} n) Anything (set_locked b)
  SoundFor-set_locked n b =
      Gives-modifies _
        λ s i. (record { distinct = i.0.distinct; coordinators = i.0.coordinators }, i.1)

  IsSound-clean_entry :
      (now : ℕ) (tx_id : String) (t : TxQueued E) (s : MultiSig E)
      → IsSound s
      → IsSound (clean_entry now tx_id t s)
  unfolding clean_entry
  IsSound-clean_entry now tx_id t s i = elim (Bool-cases (is_expired now s.tx_sign_timeout t)) [
    | inr e ↦ rw e i
    | inl e ↦ elim (Option-cases t.reject) [
      | inl n ↦ rw (e, n) (record { distinct = erased.0; coordinators = erased.1 })
      | inr (p, n) ↦ rw (e, n) (record { distinct = erased.0; coordinators = erased.1 })
    ]
  ]
    where
      erased :
          AllDiffer (keys (erase tx_id s.transactions))
          × ((id : String) (t' : TxQueued E)
              → lookup id (erase tx_id s.transactions) ≡ some t'
              → IsPeerIndex (length s.guards_pk) t'.coordinator)
      erased = (
        erase-AllDiffer tx_id s.transactions i.distinct,
        λ id t' h. i.coordinators id t' (ground (arith, h, lookup-erase tx_id id s.transactions)),
      )

  IsSound-clean_entries :
      (now : ℕ) (entries : Entries (TxQueued E)) (s : MultiSig E)
      → IsSound s
      → IsSound (clean_entries now entries s)
  unfolding clean_entries
  IsSound-clean_entries now [] s i = i
  IsSound-clean_entries now ((tx_id, t) ∷ entries) s i =
      IsSound-clean_entries now entries (clean_entry now tx_id t s)
        (IsSound-clean_entry now tx_id t s i)

  IsSound-cleanup_if :
      (now : ℕ) (taken : Bool) (s : MultiSig E) → IsSound s → IsSound (cleanup_if now taken s)
  unfolding cleanup_if
  IsSound-cleanup_if now true s i = i
  IsSound-cleanup_if now false s i =
      let k =
        IsSound-clean_entries now s.transactions (record s { locked = true })
          record { distinct = i.distinct; coordinators = i.coordinators } in
      record { distinct = k.distinct; coordinators = k.coordinators }

  pub IsSound-cleanup : (now : ℕ) (s : MultiSig E) → IsSound s → IsSound (cleanup now s)
  unfolding cleanup
  IsSound-cleanup now s i = IsSound-cleanup_if now s.locked s i

module _ {E : ErgoLib} (host : MultiSigHost E) where
  SoundFor-enqueue :
      (n promise : ℕ) (tx : E.Reduced) (required_sign : ℕ) (boxes : List E.Box)
      (data_boxes : Option (List E.Box))
      → Gives (SoundFor n) Anything (enqueue host promise tx required_sign boxes data_boxes)
  unfolding enqueue
  SoundFor-enqueue n promise tx required_sign boxes data_boxes =
      Gives-bind
        (Gives-SoundFor host.state_context n (λ t. IsPeerIndex n t.coordinator)
          (λ s0. Entry host.state_context (whole_from s0) (E.reduced_id tx))
          (λ s0.
            Gives-get_queued_transaction host host.state_context (whole_from s0) (E.reduced_id tx)
              refl)
          (λ s0 r e q. bounded n s0 r e q))
        λ t p.
          Gives-bind
            (SoundFor-put n (E.reduced_id tx)
              (with_request promise tx required_sign boxes data_boxes t) p)
            λ _ _. Gives-bind (SoundFor-set_locked n false) λ _ _.
              Gives-SoundFor host.state_context n Anything (λ _. Anything)
                (λ s0.
                  Gives-generate_commitment host host.state_context (whole_from s0)
                    (E.reduced_id tx))
                (λ s0 r e q. q)
    where
      bounded :
          (n : ℕ) (s0 : MultiSig E) (r : Result (TxQueued E))
          → length s0.guards_pk ≡ n
          → Answers (Entry host.state_context (whole_from s0) (E.reduced_id tx)) r
          → Answers (λ (t : TxQueued E). IsPeerIndex n t.coordinator) r
      bounded n s0 (ok t) e q = subst (λ k. IsPeerIndex k t.coordinator) e q.peer
      bounded n s0 (err x) e q = tt

  SoundFor-reject_error :
      (n promise : ℕ) (r : Result (Unit {0}))
      → Gives (SoundFor n) Anything (reject_error host promise r)
  unfolding reject_error
  SoundFor-reject_error n promise (ok u) = Gives-skip
  SoundFor-reject_error n promise (err e) =
      Gives-modifies _
        λ s i. (record { distinct = i.0.distinct; coordinators = i.0.coordinators }, i.1)

  SoundFor-or_reject :
      (n promise : ℕ) (m : Method E (Unit {0}))
      → Gives (SoundFor n) Anything m
      → Gives (SoundFor n) Anything (or_reject host promise m)
  unfolding or_reject
  SoundFor-or_reject n promise m h = record {
    given = λ s i. (SoundFor-reject_error n promise (m s).0).given (m s).1 (h.given s i).1;
  }

  pub IsSound-sign :
      (promise : ℕ) (tx : E.Reduced) (required_sign : ℕ) (boxes : List E.Box)
      (data_boxes : Option (List E.Box))
      → Keeps IsSound (sign host promise tx required_sign boxes data_boxes)
  unfolding sign
  IsSound-sign promise tx required_sign boxes data_boxes = record {
    kept = λ s i.
        let n = length s.guards_pk in
        let all : Gives (SoundFor n) Anything
            (sign host promise tx required_sign boxes data_boxes) =
          Gives-bind
            (Gives-SoundFor host.state_context n Anything (λ _. Anything)
              (λ s0. Gives-peers_must_be_initialized host host.state_context (whole_from s0))
              (λ s0 r e q. q))
            λ _ _. Gives-bind (Gives-read (λ s. s.locked)) λ taken _.
              Gives-if taken (λ _. Gives-skip)
                (λ _.
                  SoundFor-or_reject n promise
                    (enqueue host promise tx required_sign boxes data_boxes)
                    (SoundFor-enqueue n promise tx required_sign boxes data_boxes)) in
        (all.given s (i, refl)).1.0;
  }
