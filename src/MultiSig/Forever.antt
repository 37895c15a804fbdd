-- ===== src/MultiSig/Forever.antt =====
-- A semaphore that no method gives back, and what it means for the callers of `sign`.
use sign_protocols.Prelude.{ℕ, String, ◌≡◌, refl, some, true, false}
use sign_protocols.Prelude.Maps.{lookup}
use sign_protocols.Exec.{err}
use sign_protocols.Tss.Turns.{is_turn}
use sign_protocols.MultiSig.Data.{InitiateSignPayload}
use sign_protocols.MultiSig.Ergo.{ErgoLib}
use sign_protocols.MultiSig.State.{TxQueued, MultiSig, MultiSigHost}
use sign_protocols.MultiSig.Turns.{get_current_turn_ind}
use sign_protocols.MultiSig.Queue.{cleanup}
use sign_protocols.MultiSig.Signing.{keys_at, initiate_sign}
use sign_protocols.MultiSig.Signing.Stuck.{initiate_sign-stuck}
use sign_protocols.MultiSig.Reachable.{
  Step, signs, receives, takes_turn, takes_turn_for, cleans, changes_pks, detects,
}
use sign_protocols.MultiSig.Held.{Held, Held-handle_my_turn, Held-handle_my_turn_for_tx}
use sign_protocols.MultiSig.Held.Messages.{Held-sign, Held-receive}

-- any number of calls of methods, one after the other
pub data Runs {E : ErgoLib} (s : MultiSig E) : MultiSig E → Type 0 where
  stays : Runs s s
  runs : (s' s'' : MultiSig E) → Runs s s' → Step s' s'' → Runs s s''

module _ {E : ErgoLib} (s0 : MultiSig E) where
  Held-Step : (s s' : MultiSig E) → Step s s' → Held s0 s → Held s0 s'
  unfolding cleanup
  Held-Step s _ (signs host promise tx required_sign boxes data_boxes) h =
      Held-sign host s0 promise tx required_sign boxes data_boxes s h
  Held-Step s _ (receives host msg peer) h = Held-receive host s0 msg peer s h
  Held-Step s _ (takes_turn host) h = ((Held-handle_my_turn host s0).given s h).1
  Held-Step s _ (takes_turn_for host tx_id) h =
      ((Held-handle_my_turn_for_tx host s0 tx_id).given s h).1
  Held-Step s _ (cleans now) h = simp (h.0) (refl, h.1)
  Held-Step s _ (changes_pks new_pks) h = h
  Held-Step s _ (detects detection) h = h

  Held-Runs : (s s' : MultiSig E) → Runs s s' → Held s0 s → Held s0 s'
  Held-Runs s _ stays h = h
  Held-Runs s _ (runs s' s'' r step) h = Held-Step s' s'' step (Held-Runs s s' r h)

-- An `initiateSign` message of the guard in turn with an index that no guard has, for a queued
-- transaction with a commitment of this guard, takes the semaphore for ever: after any calls of
-- methods that follow, in any order, it is taken, and no promise was resolved or rejected since the
-- message.
pub initiate_sign-for_ever :
    {E : ErgoLib} (host : MultiSigHost E) (sender : String) (p : InitiateSignPayload) (index : ℕ)
    (t : TxQueued E) (tx : E.Reduced) (secret : E.Bag) (e : String) (s s' : MultiSig E)
    → s.locked ≡ false
    → is_turn (get_current_turn_ind host s) index ≡ true
    → lookup p.tx_id s.transactions ≡ some t
    → t.tx ≡ some tx
    → t.secret ≡ some secret
    → keys_at s.guards_pk p.committed_inds ≡ err e
    → Runs (initiate_sign host sender p index s).1 s'
    → (s'.locked ≡ true) × (s'.settled ≡ s.settled)
initiate_sign-for_ever host sender p index t tx secret e s s' free h q a b k r =
    let (taken, _, _, calls) =
      initiate_sign-stuck host sender p index t tx secret e s free h q a b k in
    Held-Runs s (initiate_sign host sender p index s).1 s' r (taken, calls)
