-- ===== src/MultiSig/Since.antt =====
-- What is left of a queue of transactions after some methods of the handler: where its entries
-- come from, and what the calls of the promises rest on.
use sign_protocols.Prelude.{
  append-nil, append_assoc, ℕ, ◌<◌, String, ◌≡◌, refl, sym, ap, ◌∙◌, ◌⊎◌, inl, inr, Option, none,
  some, List, [], ◌∷◌, ◌++◌, Bool, true, false, Bool-cases, arith, length, All, AllDiffer, eq_iff,
  ◌==◌,
}
use sign_protocols.Prelude.Maps.{
  lookup, erase, keys, lookup-insert, lookup-erase, insert-AllDiffer, erase-AllDiffer,
}
use sign_protocols.Exec.{Result, ok, Exec, gets, modifies}
use sign_protocols.Exec.Triples.{
  Leads, Gives, Answers-Anything, Anything, Gives-modifies, Gives-gets, Gives-if, Gives-raise,
}
use sign_protocols.Communicator.{Communicator}
use sign_protocols.MultiSig.Data.{MultiSigPayload}
use sign_protocols.MultiSig.Ergo.{ErgoLib}
use sign_protocols.MultiSig.State.{
  TxQueued, MultiSig, Settled, resolved, rejected, on_comm, put, acquire, set_locked,
}
use sign_protocols.MultiSig.Hints.{verify_input}
use mathlib.Core.Path.{subst}

-- The part of an entry that its caller sets.
pub record Request (E : ErgoLib) : Type 0 where
  pub tx : Option E.Reduced
  pub boxes : List E.Box
  pub data_boxes : List E.Box
  pub resolve : Option ℕ
  pub reject : Option ℕ
  pub create_time : ℕ
  pub required_signer : ℕ

abbrev pub request_of : {E : ErgoLib} → TxQueued E → Request E
request_of t = record {
  tx = t.tx;
  boxes = t.boxes;
  data_boxes = t.data_boxes;
  resolve = t.resolve;
  reject = t.reject;
  create_time = t.create_time;
  required_signer = t.required_signer;
}

-- an index of a list of this length, or -1
abbrev pub IsPeerIndex : ℕ → Option ℕ → Type 0
IsPeerIndex n none = Unit
IsPeerIndex n (some i) = i < n

-- an entry that no caller has asked for
abbrev pub IsBlank : {E : ErgoLib} → TxQueued E → Type 0
IsBlank t = (t.tx ≡ none) × (t.resolve ≡ none) × (t.reject ≡ none)

-- Where some methods started, and whether no entry was removed since.
pub record Origin (E : ErgoLib) : Type 0 where
  pub start : MultiSig E
  pub open start use *
  pub whole : Bool

abbrev pub whole_from : {E : ErgoLib} → MultiSig E → Origin E
whole_from s = record { start = s; whole = true }

abbrev pub rest_from : {E : ErgoLib} → MultiSig E → Origin E
rest_from s = record { start = s; whole = false }

module _ {E : ErgoLib} (context : Result E.Context) (s0 : Origin E) where
  -- The entry `t` has the request that stood under the id at the start, or it is blank and nothing
  -- stood there.
  abbrev pub IsFrom : String → TxQueued E → Type 0
  IsFrom tx_id t =
      ((t0 : TxQueued E) × (lookup tx_id s0.transactions ≡ some t0)
        × (request_of t ≡ request_of t0))
      ⊎ (IsBlank t × (lookup tx_id s0.transactions ≡ none))

  pub record Entry (tx_id : String) (t : TxQueued E) : Type 0 where
    pub from : IsFrom tx_id t
    pub peer : IsPeerIndex (length s0.guards_pk) t.coordinator

  -- A promise is resolved with a transaction that was queued for it and whose inputs verify, and
  -- rejected for a transaction that was queued for it and whose inputs do not verify.
  abbrev pub IsBacked : Settled E → Type 0
  IsBacked (resolved promise tx) =
      (t0 : TxQueued E) × (lookup (E.transaction_id tx) s0.transactions ≡ some t0)
      × (t0.resolve ≡ some promise)
      × (verify_input E context tx t0.boxes ≡ ok true)
  IsBacked (rejected promise reason) =
      (t0 : TxQueued E) × (tx : E.Transaction) × (lookup (E.transaction_id tx) s0.transactions
        ≡ some t0)
      × (t0.reject ≡ some promise)
      × (verify_input E context tx t0.boxes ≡ ok false)

  pub record Since (s : MultiSig E) : Type 0 where
    pub peers : s.guards_pk ≡ s0.guards_pk
    pub present :
        s0.whole ≡ true
        → (tx_id : String) → lookup tx_id s.transactions ≡ none
        → lookup tx_id s0.transactions ≡ none
    pub distinct : AllDiffer (keys s.transactions)
    pub entries :
        (tx_id : String) (t : TxQueued E) → lookup tx_id s.transactions ≡ some t → Entry tx_id t
    pub calls : (new : List (Settled E)) × (s.settled ≡ s0.settled ++ new) × All IsBacked new

-- what every state of a handler has: no id stands twice, and a coordinator is a peer
pub record IsSound {E : ErgoLib} (s : MultiSig E) : Type 0 where
  pub distinct : AllDiffer (keys s.transactions)
  pub coordinators :
      (tx_id : String) (t : TxQueued E)
      → lookup tx_id s.transactions ≡ some t
      → IsPeerIndex (length s.guards_pk) t.coordinator

append-All {ℓ κ} :
    {A : Type ℓ} (P : A → Type κ) (xs : List A) (x : A) → All P xs → P x → All P (xs ++ x ∷ [])
append-All P [] x a p = (p, tt)
append-All P (y ∷ xs) x a p = (a.0, append-All P xs x a.1 p)

module _ {E : ErgoLib} (context : Result E.Context) where
  pub Since-refl : (s0 : MultiSig E) → IsSound s0 → Since context (whole_from s0) s0
  Since-refl s0 w = record {
    peers = refl;
    present = λ w tx_id h. h;
    distinct = w.distinct;
    entries = λ tx_id t h. record { from = inl (t, h, refl); peer = w.coordinators tx_id t h };
    calls = ([], sym (append-nil s0.settled), tt);
  }

  -- After a removal the entries that are left are as before.
  pub Since-rest :
      (s0 s : MultiSig E) → Since context (whole_from s0) s → Since context (rest_from s0) s
  Since-rest s0 s i = record {
    peers = i.peers;
    present = λ w. absurd (ground (arith, w));
    distinct = i.distinct;
    entries = λ tx_id t h. let e = i.entries tx_id t h in record { from = e.from; peer = e.peer };
    calls = i.calls;
  }

  pub Leads-delete :
      (s0 : MultiSig E) (tx_id : String)
      → Leads
          (Since context (whole_from s0))
          (Since context (rest_from s0))
          (modifies (λ s. record s { transactions = erase tx_id s.transactions }))
  Leads-delete s0 tx_id = record {
    led = λ s i. record {
      peers = i.peers;
      present = λ w. absurd (ground (arith, w));
      distinct = erase-AllDiffer tx_id s.transactions i.distinct;
      entries = λ id t' h.
          let e = i.entries id t' (ground (arith, h, lookup-erase tx_id id s.transactions)) in
          record { from = e.from; peer = e.peer };
      calls = i.calls;
    };
  }

module _ {E : ErgoLib} (context : Result E.Context) (s0 : Origin E) where
  pub IsSound-Since : (s : MultiSig E) → Since context s0 s → IsSound s
  IsSound-Since s i = record {
    distinct = i.distinct;
    coordinators = λ tx_id t h.
        subst (λ ks. IsPeerIndex (length ks) t.coordinator) (sym i.peers)
          (i.entries tx_id t h).peer;
  }

  -- The base class, the detection and the caches do not see the queue.
  pub Gives-on_comm :
      {A : Type 0} (m : Exec (Communicator MultiSigPayload) A)
      → Gives (Since context s0) Anything (on_comm m)
  Gives-on_comm m = record {
    given = λ s i. (
      Answers-Anything (m s.comm).0,
      record {
        peers = i.peers;
        present = i.present;
        distinct = i.distinct;
        entries = i.entries;
        calls = i.calls;
      },
    );
  }

  pub Gives-set_locked : (b : Bool) → Gives (Since context s0) Anything (set_locked b)
  Gives-set_locked b = Gives-modifies _ λ s i. record {
    peers = i.peers;
    present = i.present;
    distinct = i.distinct;
    entries = i.entries;
    calls = i.calls;
  }

  pub Gives-acquire : Gives (Since context s0) Anything acquire
  Gives-acquire = record {
    given = λ s i. (Gives-if s.locked (λ _. Gives-raise _) (λ _. Gives-set_locked true)).given s i;
  }

  abbrev pub Found : String → Option (TxQueued E) → Type 0
  Found tx_id none = s0.whole ≡ true → lookup tx_id s0.transactions ≡ none
  Found tx_id (some t) = Entry context s0 tx_id t

  pub Gives-lookup :
      (tx_id : String)
      → Gives (Since context s0) (Found tx_id) (gets (λ s. lookup tx_id s.transactions))
  Gives-lookup tx_id =
      Gives-gets (λ s. lookup tx_id s.transactions)
        λ s i. found (lookup tx_id s.transactions) (i.entries tx_id) λ h w. i.present w tx_id h
    where
      found :
          (o : Option (TxQueued E))
          → ((t : TxQueued E) → o ≡ some t → Entry context s0 tx_id t)
          → (o ≡ none → s0.whole ≡ true → lookup tx_id s0.transactions ≡ none)
          → Found tx_id o
      found none k l = l refl
      found (some t) k l = k t refl

  pub Gives-put :
      (tx_id : String) (t : TxQueued E)
      → Entry context s0 tx_id t
      → Gives (Since context s0) Anything (put tx_id t)
  Gives-put tx_id t e = Gives-modifies _ λ s i. record {
    peers = i.peers;
    present = λ w id h. i.present w id (elim (Bool-cases (tx_id == id)) [
      | inl b ↦ ground (arith, h, b, lookup-insert tx_id id t s.transactions)
      | inr b ↦ ground (arith, h, b, lookup-insert tx_id id t s.transactions)
    ]);
    distinct = insert-AllDiffer tx_id t s.transactions i.distinct;
    entries = λ id t' h. elim (Bool-cases (tx_id == id)) [
      | inl b ↦
          let id_eq : tx_id ≡ id = (eq_iff tx_id id).0 b in
          let t_eq : t ≡ t' = ground (arith, h, b, lookup-insert tx_id id t s.transactions) in
          subst (λ j. Entry context s0 j t') id_eq (subst (λ x. Entry context s0 tx_id x) t_eq e)
      | inr b ↦ i.entries id t' (ground (arith, h, b, lookup-insert tx_id id t s.transactions))
    ];
    calls = i.calls;
  }

  pub Since-settle :
      (call : Settled E) (s : MultiSig E)
      → IsBacked context s0 call
      → Since context s0 s
      → Since context s0 (record s { settled = s.settled ++ call ∷ [] })
  Since-settle call s b i = record {
    peers = i.peers;
    present = i.present;
    distinct = i.distinct;
    entries = i.entries;
    calls =
        let (new, e, a) = i.calls in
        (
          new ++ call ∷ [],
          ap (λ l. l ++ call ∷ []) e ∙ append_assoc s0.settled new (call ∷ []),
          append-All (IsBacked context s0) new call a b,
        );
  }
