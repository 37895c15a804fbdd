-- ===== src/MultiSig/Reachable.antt =====
-- What holds of every state that a handler comes to, in whatever order its methods are called and
-- messages arrive, and what a message does to what the callers asked for.
use sign_protocols.Prelude.{ℕ, String, ◌≡◌, Option, some, List, ◌++◌, arith, All}
use sign_protocols.Prelude.Maps.{lookup}
use sign_protocols.Communicator.{CommunicationMessage, change_pks}
use sign_protocols.Communicator.Handling.{handle_message-ends}
use sign_protocols.Detection.State.{GuardDetection}
use sign_protocols.MultiSig.Data.{MultiSigPayload, multi_sig_payload_json}
use sign_protocols.MultiSig.Ergo.{ErgoLib}
use sign_protocols.MultiSig.State.{TxQueued, MultiSig, MultiSigHost, Settled, create}
use sign_protocols.MultiSig.Since.{
  whole_from, rest_from, Since-rest, IsSound, IsFrom, IsBacked, Since, Since-refl, IsSound-Since,
}
use sign_protocols.MultiSig.Queue.{sign, cleanup}
use sign_protocols.MultiSig.Queue.Sound.{IsSound-sign, IsSound-cleanup}
use sign_protocols.MultiSig.Dispatch.{
  handle_my_turn, handle_my_turn_for_tx, process_message, receive,
}
use sign_protocols.MultiSig.Dispatch.Kept.{
  Gives-handle_my_turn, Gives-handle_my_turn_for_tx, Leads-process_message,
}

-- One call of a method of the class, at any time; the detection, which others call too, may change
-- at any time.
pub data Step {E : ErgoLib} (s : MultiSig E) : MultiSig E → Type 0 where
  signs :
      (host : MultiSigHost E) (promise : ℕ) (tx : E.Reduced) (required_sign : ℕ)
      (boxes : List E.Box) (data_boxes : Option (List E.Box))
      → Step s (sign host promise tx required_sign boxes data_boxes s).1
  receives :
      (host : MultiSigHost E) (msg : Option (CommunicationMessage MultiSigPayload)) (peer : String)
      → Step s (receive host msg peer s).1
  takes_turn : (host : MultiSigHost E) → Step s (handle_my_turn host s).1
  takes_turn_for :
      (host : MultiSigHost E) (tx_id : String) → Step s (handle_my_turn_for_tx host tx_id s).1
  cleans : (now : ℕ) → Step s (cleanup now s)
  changes_pks : (new_pks : List String) → Step s (record s { comm = change_pks new_pks s.comm })
  detects : (detection : GuardDetection (Unit {0})) → Step s (record s { detection = detection })

-- the states that come from a constructor's
pub data Reachable {E : ErgoLib} : MultiSig E → Type 0 where
  created :
      (secret_hex : String) (timeout : ℕ) (detection : GuardDetection (Unit {0}))
      (guards_pk : List String)
      → Reachable (create secret_hex timeout detection guards_pk)
  after : (s s' : MultiSig E) → Reachable s → Step s s' → Reachable s'

module _ {E : ErgoLib} (host : MultiSigHost E) where
  receive-Since :
      (s : MultiSig E) (msg : Option (CommunicationMessage MultiSigPayload)) (peer : String)
      → IsSound s
      → Since host.state_context (rest_from s) (receive host msg peer s).1
  unfolding receive
  receive-Since s msg peer i =
      handle_message-ends host.enc (λ (s : MultiSig E). s.comm) (process_message host)
        (Since host.state_context (rest_from s)) host.now msg peer s
        (λ kind payload signature j time.
          (Leads-process_message host s kind payload signature j peer time).led s
            (Since-refl host.state_context s i))
        (Since-rest host.state_context s s (Since-refl host.state_context s i))

  -- What a message makes of the callers' promises: the calls that are new after any message are
  -- each backed by an entry that was in the queue before. A promise is resolved only with a
  -- transaction for whose id it was queued and all of whose inputs verify against the boxes that
  -- were queued with it, and it is rejected only for a transaction for whose id it was queued and
  -- which does not verify.
  pub receive-IsBacked :
      (s : MultiSig E) (msg : Option (CommunicationMessage MultiSigPayload)) (peer : String)
      → IsSound s
      → (new : List (Settled E)) × ((receive host msg peer s).1.settled ≡ s.settled ++ new)
        × All (IsBacked host.state_context (rest_from s)) new
  receive-IsBacked s msg peer i = (receive-Since s msg peer i).calls

  -- No message changes what a caller asked for: an entry that is in the queue after any message
  -- has the transaction, boxes, promise, time and number of signers that stood under its id
  -- before, or nothing stood under its id before and it is blank, without a transaction and a
  -- promise.
  pub receive-IsFrom :
      (s : MultiSig E) (msg : Option (CommunicationMessage MultiSigPayload)) (peer : String)
      (tx_id : String) (t : TxQueued E)
      → IsSound s
      → lookup tx_id (receive host msg peer s).1.transactions ≡ some t
      → IsFrom host.state_context (rest_from s) tx_id t
  receive-IsFrom s msg peer tx_id t i h = ((receive-Since s msg peer i).entries tx_id t h).from

module _ {E : ErgoLib} where
  Step-IsSound : (s s' : MultiSig E) → Step s s' → IsSound s → IsSound s'
  Step-IsSound s _ (signs host promise tx required_sign boxes data_boxes) i =
      (IsSound-sign host promise tx required_sign boxes data_boxes).kept s i
  Step-IsSound s _ (receives host msg peer) i =
      IsSound-Since host.state_context (rest_from s) _ (receive-Since host s msg peer i)
  Step-IsSound s _ (takes_turn host) i =
      IsSound-Since host.state_context (whole_from s) _
        ((Gives-handle_my_turn host s).given s (Since-refl host.state_context s i)).1
  Step-IsSound s _ (takes_turn_for host tx_id) i =
      IsSound-Since host.state_context (whole_from s) _
        ((Gives-handle_my_turn_for_tx host s tx_id).given s (Since-refl host.state_context s i)).1
  Step-IsSound s _ (cleans now) i = IsSound-cleanup now s i
  Step-IsSound s _ (changes_pks new_pks) i = record {
    distinct = i.distinct;
    coordinators = i.coordinators;
  }
  Step-IsSound s _ (detects detection) i = record {
    distinct = i.distinct;
    coordinators = i.coordinators;
  }

  -- In every state that is reached, no id stands twice in the queue, and the coordinator of every
  -- queued transaction is -1 or an index of a peer, below the number of the peers.
  pub Reachable-IsSound : (s : MultiSig E) → Reachable s → IsSound s
  unfolding create lookup
  Reachable-IsSound _ (created secret_hex timeout detection guards_pk) = record {
    distinct = tt;
    coordinators = λ tx_id t h. ground (arith, h);
  }
  Reachable-IsSound _ (after s s' r step) = Step-IsSound s s' step (Reachable-IsSound s r)
