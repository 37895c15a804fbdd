-- ===== src/MultiSig/State.antt =====
-- The state of `MultiSigHandler`. A caller's promise is a number, and the calls of its `resolve`
-- and `reject` are entries of `settled`. `locked` says that the semaphore is taken.
use sign_protocols.Prelude.{
  ℕ, String, Option, none, List, [], ◌∷◌, ◌++◌, Bool, true, false, if◌then◌else◌,
}
use sign_protocols.Prelude.Maps.{Entries, insert}
use sign_protocols.Exec.{Result, Exec, modifies, raise}
use sign_protocols.Communicator
use sign_protocols.Communicator.{Communicator}
use sign_protocols.Detection.State.{GuardDetection, Host}
use sign_protocols.MultiSig.Data.{PublishedCommitment, PublishedProof, MultiSigPayload}
use sign_protocols.MultiSig.Ergo.{ErgoLib}

-- `coordinator` is `none` where the source has -1. Times are in milliseconds.
pub record TxQueued (E : ErgoLib) : Type 0 where
  pub tx : Option E.Reduced
  pub boxes : List E.Box
  pub data_boxes : List E.Box
  pub secret : Option E.Bag
  pub simulated_bag : Option E.Bag
  pub signs : Entries PublishedProof
  pub commitments : Entries PublishedCommitment
  pub commitment_signs : Entries String
  pub resolve : Option ℕ
  pub reject : Option ℕ
  pub create_time : ℕ
  pub required_signer : ℕ
  pub coordinator : Option ℕ

-- One call of a promise's `resolve` or `reject`.
pub data Settled (E : ErgoLib) : Type 0 where
  resolved : ℕ → E.Transaction → Settled E
  rejected : ℕ → String → Settled E

-- `guards_pk` is this class's own list of keys, beside the one of the base class; the timeout of a
-- transaction is in seconds.
pub record MultiSig (E : ErgoLib) : Type 0 where
  pub comm : Communicator MultiSigPayload
  pub open comm use *
  pub guards_pk : List String
  pub detection : GuardDetection (Unit {0})
  pub secret_hex : String
  pub tx_sign_timeout : ℕ
  pub transactions : Entries (TxQueued E)
  pub public_key : Option String
  pub prover : Option E.Wallet
  pub locked : Bool
  pub settled : List (Settled E)

-- The host of the detection, what `getStateContext` answers, and the random numbers of a method.
pub record MultiSigHost (E : ErgoLib) : Type 0 where
  pub node : Host
  pub open node use *
  pub state_context : Result E.Context
  pub entropy : ℕ

abbrev pub Method : ErgoLib → Type 0 → Type 0
Method E A = Exec (MultiSig E) A

module _ {E : ErgoLib} where
  abbrev pub on_comm : {A : Type 0} → Exec (Communicator MultiSigPayload) A → Method E A
  on_comm m s = let (r, c) = m s.comm in (r, record s { comm = c })

  abbrev pub on_detection : {A : Type 0} → Exec (GuardDetection (Unit {0})) A → Method E A
  on_detection m s = let (r, d) = m s.detection in (r, record s { detection = d })

  -- `secretHex`, `txSignTimeout`, `guardDetection` and `guardsPk` of the configuration
  unfoldable pub create : String → ℕ → GuardDetection (Unit {0}) → List String → MultiSig E
  unfolding Communicator.init
  create secret_hex tx_sign_timeout detection guards_pk = record {
    comm = Communicator.init guards_pk none;
    guards_pk = guards_pk;
    detection = detection;
    secret_hex = secret_hex;
    tx_sign_timeout = tx_sign_timeout;
    transactions = [];
    public_key = none;
    prover = none;
    locked = false;
    settled = [];
  }

  abbrev pub settle : Settled E → MultiSig E → MultiSig E
  settle call s = record s { settled = s.settled ++ call ∷ [] }

  -- An assignment to fields of a queued transaction's object.
  abbrev pub put : String → TxQueued E → Method E (Unit {0})
  put tx_id t = modifies λ s. record s { transactions = insert tx_id t s.transactions }

  abbrev pub set_locked : Bool → Method E (Unit {0})
  set_locked b = modifies λ s. record s { locked = b }

  -- `semaphore.acquire`. A method has ended before another one runs, so that a semaphore that it finds
  -- taken is one that nobody releases: the method waits for ever, which is a throw that ends it there.
  abbrev pub acquire : Method E (Unit {0})
  acquire s = (if s.locked then raise "waits for the semaphore" else set_locked true) s
