-- ===== src/MultiSig/Queue/Quiet.antt =====
-- What does not touch the queue, the outbox and the semaphore.
use sign_protocols.Prelude.{◌≡◌, refl}
use sign_protocols.Exec.Triples.{Gives, Anything}
use sign_protocols.MultiSig.Ergo.{ErgoLib}
use sign_protocols.MultiSig.State.{MultiSig}
use sign_protocols.MultiSig.Queue.{get_pk}
use sign_protocols.MultiSig.Queue.Keys.{get_pk-Gives}

-- as in `s0`, but for the cached key and prover
pub record Quiet {E : ErgoLib} (s0 s : MultiSig E) : Type 0 where
  pub comm : s.comm ≡ s0.comm
  pub peers : s.guards_pk ≡ s0.guards_pk
  pub queue : s.transactions ≡ s0.transactions
  pub semaphore : s.locked ≡ s0.locked
  pub calls : s.settled ≡ s0.settled

module _ {E : ErgoLib} (s0 : MultiSig E) where
  pub Quiet-refl : Quiet s0 s0
  Quiet-refl = record { comm = refl; peers = refl; queue = refl; semaphore = refl; calls = refl }

  pub Quiet-get_pk : Gives (Quiet s0) Anything get_pk
  Quiet-get_pk = get_pk-Gives λ key s i. record {
    comm = i.comm;
    peers = i.peers;
    queue = i.queue;
    semaphore = i.semaphore;
    calls = i.calls;
  }
