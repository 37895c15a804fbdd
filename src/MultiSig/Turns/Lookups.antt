-- ===== src/MultiSig/Turns/Lookups.antt =====
-- What the lookups of ids leave true: whatever does not look at the detection.
use sign_protocols.Prelude.{◌≡◌, refl, inl, inr, map}
use sign_protocols.Exec.{Exec, Result-value}
use sign_protocols.Exec.Triples.{
  Gives, Anything, Answers-Anything, Gives-bind, Gives-read, Gives-lift,
}
use sign_protocols.Communicator.{get_index}
use sign_protocols.Detection.State.{GuardDetection}
use sign_protocols.Detection.Active.{active_guards}
use sign_protocols.MultiSig.Data.{multi_sig_payload_json}
use sign_protocols.MultiSig.Ergo.{ErgoLib}
use sign_protocols.MultiSig.State.{MultiSig, MultiSigHost, on_detection}
use sign_protocols.MultiSig.Turns.{
  key_at, peer_with, turn_peer, find_turn, peers_with_ids, get_current_turn_ind,
  get_current_turn_id, is_my_turn,
}

module _ {E : ErgoLib} (host : MultiSigHost E) {I : MultiSig E → Type 0}
    (closed : (d : GuardDetection (Unit {0})) (s : MultiSig E)
      → I s
      → I (record s { detection = d })) where
  on_detection-Gives :
      {A : Type 0} (m : Exec (GuardDetection (Unit {0})) A) → Gives I Anything (on_detection m)
  on_detection-Gives m = record {
    given = λ s i. (Answers-Anything (m s.detection).0, closed (m s.detection).1 s i);
  }

  pub peers_with_ids-Gives : Gives I Anything (peers_with_ids host)
  unfolding peers_with_ids
  peers_with_ids-Gives =
      Gives-bind (on_detection-Gives (active_guards host.node))
        λ active _. Gives-read (λ s. map (peer_with active) s.guards_pk)

  find_turn-Gives : Gives I Anything (find_turn host)
  unfolding find_turn
  find_turn-Gives = Gives-bind (on_detection-Gives (active_guards host.node)) λ active _.
      Gives-bind (Gives-read (λ s. key_at s.guards_pk (get_current_turn_ind host s)))
        λ key _. Gives-lift (turn_peer active key) λ _ _. tt

  pub get_current_turn_id-Gives : Gives I Anything (get_current_turn_id host)
  unfolding get_current_turn_id
  get_current_turn_id-Gives = record { given = λ s i. (tt, (find_turn-Gives.given s i).1) }

module _ {E : ErgoLib} (host : MultiSigHost E) where
  -- `isMyTurn` changes the cached index at most.
  pub is_my_turn-state :
      (s : MultiSig E) → (is_my_turn host s).1 ≡ record s { comm = (get_index host.enc s.comm).1 }
  unfolding is_my_turn
  is_my_turn-state s = elim (Result-value (get_index host.enc s.comm).0) [
    | inl (i, e) ↦ rw e refl
    | inr (x, e) ↦ rw e refl
  ]
