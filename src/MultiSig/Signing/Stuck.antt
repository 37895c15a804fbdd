-- ===== src/MultiSig/Signing/Stuck.antt =====
-- What an `initiateSign` message with a bad index leaves behind.
use sign_protocols.Prelude.{ℕ, String, ◌≡◌, ap, ◌∙◌, some, true, false}
use sign_protocols.Prelude.Maps.{lookup}
use sign_protocols.Exec.{err}
use sign_protocols.Exec.Triples.{Gives, Anything, Gives-bind, Gives-gets, Gives-throw}
use sign_protocols.Tss.Turns.{is_turn}
use sign_protocols.MultiSig.Data.{InitiateSignPayload}
use sign_protocols.MultiSig.Ergo.{ErgoLib}
use sign_protocols.MultiSig.State.{TxQueued, MultiSig, MultiSigHost}
use sign_protocols.MultiSig.Turns.{get_current_turn_ind}
use sign_protocols.MultiSig.Queue.{get_queued_transaction}
use sign_protocols.MultiSig.Queue.Quiet.{Quiet, Quiet-refl, Quiet-get_pk}
use sign_protocols.MultiSig.Signing.{
  keys_at, sign_as, partial_sign, sign_if_ready, answer_initiate, initiate_sign,
}

module _ {E : ErgoLib} (host : MultiSigHost E) where
  partial_sign-Quiet :
      (s0 : MultiSig E) (sender : String) (p : InitiateSignPayload) (t : TxQueued E)
      (tx : E.Reduced) (secret : E.Bag) (e : String)
      → keys_at s0.guards_pk p.committed_inds ≡ err e
      → Gives (Quiet s0) Anything (partial_sign host sender p t tx secret)
  unfolding partial_sign
  partial_sign-Quiet s0 sender p t tx secret e h = Gives-bind (Quiet-get_pk s0) λ my_pub _.
      Gives-bind (Gives-gets {Q = λ ks. ks ≡ s0.guards_pk} (λ s. s.guards_pk) λ s i. i.peers)
        λ guards_pk g.
          Gives-throw (keys_at guards_pk p.committed_inds)
            (sign_as host sender p t tx secret my_pub guards_pk) e
            (ap (λ ks. keys_at ks p.committed_inds) g ∙ h)

  -- What is left right after the message: the semaphore taken, and all else as it was.
  pub initiate_sign-stuck :
      (sender : String) (p : InitiateSignPayload) (index : ℕ) (t : TxQueued E) (tx : E.Reduced)
      (secret : E.Bag) (e : String) (s : MultiSig E)
      → s.locked ≡ false
      → is_turn (get_current_turn_ind host s) index ≡ true
      → lookup p.tx_id s.transactions ≡ some t
      → t.tx ≡ some tx
      → t.secret ≡ some secret
      → keys_at s.guards_pk p.committed_inds ≡ err e
      → ((initiate_sign host sender p index s).1.locked ≡ true)
        × ((initiate_sign host sender p index s).1.outbox ≡ s.outbox)
        × ((initiate_sign host sender p index s).1.transactions ≡ s.transactions)
        × ((initiate_sign host sender p index s).1.settled ≡ s.settled)
  unfolding initiate_sign answer_initiate get_queued_transaction sign_if_ready
  initiate_sign-stuck sender p index t tx secret e s free h q a b k =
      let s1 = record s { locked = true } in
      let j = (partial_sign-Quiet s1 sender p t tx secret e k).given s1 (Quiet-refl s1) in
      rw (h, free, q, a, b) (j.1.semaphore, ap (λ c. c.outbox) j.1.comm, j.1.queue, j.1.calls)
