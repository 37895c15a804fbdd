-- ===== src/MultiSig/Queue.antt =====
-- The queue of transactions: `getQueuedTransaction`, `generateCommitment`, `sign` and `cleanup`.
pub mod Kept
pub mod Keys
pub mod Quiet
pub mod Sound
pub mod Cleaning
use sign_protocols.Prelude.{
  when_truthy, ℕ, ◌+◌, ◌*◌, String, Option, none, some, List, [], ◌∷◌, Bool, true, false, ltb,
  if◌then◌else◌, ◌==◌,
}
use sign_protocols.Prelude.Maps.{Entries, lookup, insert, erase}
use sign_protocols.Exec.{Result, ok, err, ◌>>=◌, ◌>>◌, pure, raise, gets, modifies, lift, skip}
use sign_protocols.Communicator.{send_message, get_date}
use sign_protocols.MultiSig.Data.{commitment, commitment_message, multi_sig_payload_json}
use sign_protocols.MultiSig.Ergo.{ErgoLib}
use sign_protocols.MultiSig.State.{
  TxQueued, MultiSig, MultiSigHost, Method, rejected, on_comm, settle, put, acquire, set_locked,
}
use sign_protocols.MultiSig.Hints.{to_reduced_published_commitments}
use sign_protocols.MultiSig.Turns.{
  get_current_turn_ind, get_current_turn_id, is_my_turn, peers_must_be_initialized,
}

module _ {E : ErgoLib} where
  derive_public_key : Method E (Unit {0})
  derive_public_key = do
    hex ← gets λ s. s.secret_hex
    key ← lift (E.dlog_from_bytes hex)
    modifies λ s. record s { public_key = some (E.address_content key) }

  -- `if (!this.publicKey)` a second time
  check_public_key : Option String → Method E String
  check_public_key none = raise "Cannot derive public key in MultiSig"
  check_public_key (some key) = pure key

  known_or_derived : Option String → Method E (Unit {0})
  unfolding derive_public_key
  known_or_derived none = derive_public_key
  known_or_derived (some key) = skip

  unfoldable pub get_pk : Method E String
  unfolding known_or_derived check_public_key
  get_pk = do
    known ← gets λ s. when_truthy s.public_key
    known_or_derived known
    key ← gets λ s. when_truthy s.public_key
    check_public_key key

  make_prover : Option E.Wallet → Method E E.Wallet
  make_prover (some prover) = pure prover
  make_prover none = do
    hex ← gets λ s. s.secret_hex
    key ← lift (E.dlog_from_bytes hex)
    modifies λ s. record s { prover = some (E.from_secrets (key ∷ [])) }
    pure (E.from_secrets (key ∷ []))

  unfoldable pub get_prover : Method E E.Wallet
  unfolding make_prover
  get_prover = do known ← gets λ s. s.prover; make_prover known

  abbrev pub new_transaction : ℕ → TxQueued E
  new_transaction now = record {
    tx = none;
    boxes = [];
    data_boxes = [];
    secret = none;
    simulated_bag = none;
    signs = [];
    commitments = [];
    commitment_signs = [];
    resolve = none;
    reject = none;
    create_time = now;
    required_signer = 0;
    coordinator = none;
  }

  queued_or_new : ℕ → String → Option (TxQueued E) → Method E (TxQueued E)
  queued_or_new now tx_id (some t) = pure t
  queued_or_new now tx_id none = do put tx_id (new_transaction now); pure (new_transaction now)

  -- `createTime < now - txSignTimeout * 1000`
  abbrev pub is_expired : ℕ → ℕ → TxQueued E → Bool
  is_expired now timeout t = ltb (t.create_time + timeout * 1000) now

  abbrev pub reject_with : String → Option ℕ → MultiSig E → MultiSig E
  reject_with reason none s = s
  reject_with reason (some promise) s = settle (rejected promise reason) s

  clean_entry : ℕ → String → TxQueued E → MultiSig E → MultiSig E
  clean_entry now tx_id t s =
      if is_expired now s.tx_sign_timeout t
      then (let s' = reject_with "Timed out" t.reject s in
          record s' { transactions = erase tx_id s'.transactions })
      else s

  -- the loop of `cleanup`, over a copy of the entries
  clean_entries : ℕ → Entries (TxQueued E) → MultiSig E → MultiSig E
  unfolding clean_entry
  clean_entries now [] s = s
  clean_entries now ((tx_id, t) ∷ entries) s = clean_entries now entries (clean_entry now tx_id t s)

  -- It waits for a semaphore that is taken.
  cleanup_if : ℕ → Bool → MultiSig E → MultiSig E
  unfolding clean_entries
  cleanup_if now true s = s
  cleanup_if now false s = record (clean_entries now s.transactions (record s { locked = true })) {
    locked = false;
  }

  unfoldable pub cleanup : ℕ → MultiSig E → MultiSig E
  unfolding cleanup_if
  cleanup now s = cleanup_if now s.locked s

  -- what `sign` writes into an entry
  abbrev pub with_request :
      ℕ → E.Reduced → ℕ → List E.Box → Option (List E.Box) → TxQueued E → TxQueued E
  with_request promise tx required_sign boxes data_boxes t = record t {
    tx = some tx;
    boxes = boxes;
    data_boxes = elim data_boxes [ none ↦ [] | some bs ↦ bs ];
    resolve = some promise;
    reject = some promise;
    required_signer = required_sign;
  }

module _ {E : ErgoLib} (host : MultiSigHost E) where
  unfoldable pub get_queued_transaction : String → Method E (TxQueued E)
  unfolding queued_or_new
  get_queued_transaction tx_id = do
    acquire
    found ← gets λ s. lookup tx_id s.transactions
    queued_or_new host.now tx_id found

  unfoldable pub commit_to :
      String → Option ℕ → String → TxQueued E → E.Reduced → Method E (Unit {0})
  commit_to tx_id turn turn_id t tx = do
    put tx_id (record t { coordinator = turn })
    prover ← get_prover
    secret ← lift (E.generate_commitments host.entropy prover tx)
    put tx_id (record t { coordinator = turn; secret = some secret })
    my_pub ← get_pk
    let published = to_reduced_published_commitments E secret my_pub
    put tx_id (record t {
      coordinator = turn;
      secret = some secret;
      commitments = insert my_pub published t.commitments;
    })
    mine ← is_my_turn host
    (if mine
        then skip
        else on_comm (
            send_message host.enc host.now commitment_message (commitment tx_id published)
              (turn_id ∷ []) (some (get_date host.now))))

  unfoldable pub commit_if_set :
      String → Option ℕ → String → TxQueued E → Option E.Reduced → Method E (Unit {0})
  unfolding commit_to
  commit_if_set tx_id turn turn_id t none = skip
  commit_if_set tx_id turn turn_id t (some tx) = commit_to tx_id turn turn_id t tx

  unfoldable pub commit_if_queued :
      String → Option ℕ → String → Option (TxQueued E) → Method E (Unit {0})
  unfolding commit_if_set
  commit_if_queued tx_id turn turn_id none = skip
  commit_if_queued tx_id turn turn_id (some t) = commit_if_set tx_id turn turn_id t t.tx

  unfoldable pub commit_with : String → Option ℕ → Option String → Method E (Unit {0})
  unfolding commit_if_queued
  commit_with tx_id turn none = skip
  commit_with tx_id turn (some turn_id) = do
    found ← gets λ s. lookup tx_id s.transactions
    commit_if_queued tx_id turn turn_id found

  unfoldable pub generate_commitment : String → Method E (Unit {0})
  unfolding commit_with
  generate_commitment tx_id = do
    turn ← gets (get_current_turn_ind host)
    turn_id ← get_current_turn_id host
    commit_with tx_id turn turn_id

  -- `.catch((e) => reject(e))`
  reject_error : ℕ → Result (Unit {0}) → Method E (Unit {0})
  reject_error promise (ok u) = skip
  reject_error promise (err e) = modifies (settle (rejected promise e))

  or_reject : ℕ → Method E (Unit {0}) → Method E (Unit {0})
  unfolding reject_error
  or_reject promise m s = let (r, s') = m s in reject_error promise r s'

  enqueue : ℕ → E.Reduced → ℕ → List E.Box → Option (List E.Box) → Method E (Unit {0})
  unfolding get_queued_transaction generate_commitment
  enqueue promise tx required_sign boxes data_boxes = do
    t ← get_queued_transaction (E.reduced_id tx)
    put (E.reduced_id tx) (with_request promise tx required_sign boxes data_boxes t)
    set_locked false
    generate_commitment (E.reduced_id tx)

  -- A promise that waits for the semaphore is neither resolved nor rejected.
  unfoldable pub sign : ℕ → E.Reduced → ℕ → List E.Box → Option (List E.Box) → Method E (Unit {0})
  unfolding enqueue or_reject
  sign promise tx required_sign boxes data_boxes = do
    peers_must_be_initialized host
    taken ← gets λ s. s.locked
    if taken then skip else or_reject promise (enqueue promise tx required_sign boxes data_boxes)
