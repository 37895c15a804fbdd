-- ===== src/MultiSig/Dispatch/Kept.antt =====
-- What the guard's own turn and the messages leave of the queue's requests.
use sign_protocols.Prelude.{
  ℕ, String, ◌≡◌, refl, inl, inr, Option, none, some, Bool, true, false, not, ◌&&◌, ◌<◌, length,
  arith, ◌==◌,
}
use sign_protocols.Prelude.Maps.{keys}
use sign_protocols.Exec.{ok, Result-value}
use sign_protocols.Exec.Triples.{
  Leads-bind, Leads-if, Leads-Gives, Gives, Anything, Gives-bind, Gives-skip, Gives-read, Gives-if,
  Gives-for_each,
}
use sign_protocols.Communicator.{send_message, get_date, get_index}
use sign_protocols.Communicator.Index.{get_index-again}
use sign_protocols.Tss.Turns.{is_turn}
use sign_protocols.MultiSig.Data.{
  MultiSigPayload, generate_commitment, commitment, initiate_sign, sign, signed_tx,
  generate_commitment_message, commitment_message, initiate_sign_message, sign_message,
  signed_tx_message, multi_sig_payload_json,
}
use sign_protocols.MultiSig.Ergo.{ErgoLib}
use sign_protocols.MultiSig.State.{TxQueued, MultiSig, MultiSigHost}
use sign_protocols.MultiSig.Since.{
  whole_from, Since, Entry, Found, IsPeerIndex, Gives-on_comm, Gives-put, Gives-lookup,
}
use sign_protocols.MultiSig.Turns.{ids_of, get_current_turn_ind, is_my_turn}
use sign_protocols.MultiSig.Turns.Kept.{
  Gives-turn_ind, Gives-is_my_turn, Gives-get_current_turn_id, Gives-peers_with_ids,
  Gives-peers_must_be_initialized,
}
use sign_protocols.MultiSig.Queue.Kept.{Gives-generate_commitment}
use sign_protocols.MultiSig.Commit.Kept.{Gives-handle_commitment}
use sign_protocols.MultiSig.Signing.Kept.{
  Gives-initiate_sign, Ends, sub, Leads-handle_sign, Leads-handle_signed_tx,
}
use sign_protocols.MultiSig.Dispatch.{
  restarted, coordinate, coordinate_in_turn, restart, handle_my_turn_for_tx, all_my_turn,
  handle_my_turn, dispatch, process_message,
}

and_left : (a b : Bool) → a && b ≡ true → a ≡ true
and_left true b h = refl
and_left false b h = h

is_turn-IsPeerIndex :
    (turn : Option ℕ) (n i : ℕ) → IsPeerIndex n turn → is_turn turn i ≡ true → i < n
is_turn-IsPeerIndex none n i p h = ground arith
is_turn-IsPeerIndex (some t) n i p h = ground (arith, p)

module _ {E : ErgoLib} (host : MultiSigHost E) where
  -- The index that `isMyTurn` looks up is the one that was looked up before.
  pub is_my_turn-again :
      (s : MultiSig E) (i : ℕ)
      → (get_index host.enc s.comm).0 ≡ ok i
      → is_my_turn host (record s { comm = (get_index host.enc s.comm).1 }) ≡ (
        ok (is_turn (get_current_turn_ind host s) i),
        record s { comm = (get_index host.enc s.comm).1 },
      )
  unfolding is_my_turn
  is_my_turn-again s i h = ground (arith, get_index-again host.enc s.comm i h)

module _ {E : ErgoLib} (host : MultiSigHost E) (s0 : MultiSig E) where
  Gives-coordinate :
      (tx_id : String) (t : TxQueued E) (my_ind : ℕ)
      → IsPeerIndex (length s0.guards_pk) (some my_ind)
      → Entry host.state_context (whole_from s0) tx_id t
      → Gives (Since host.state_context (whole_from s0)) Anything (coordinate host tx_id t my_ind)
  unfolding coordinate
  Gives-coordinate tx_id t my_ind p e =
      Gives-bind (Gives-get_current_turn_id host host.state_context (whole_from s0)) λ _ _.
        Gives-bind
          (Gives-put host.state_context (whole_from s0) tx_id
            (record t { coordinator = some my_ind }) record { from = e.from; peer = p })
          λ _ _.
            Gives-bind (Gives-generate_commitment host host.state_context (whole_from s0) tx_id)
              λ _ _.
                Gives-bind (Gives-peers_with_ids host host.state_context (whole_from s0)) λ peers _.
                  Gives-on_comm host.state_context (whole_from s0) (
                    send_message host.enc host.now generate_commitment_message
                      (generate_commitment tx_id) (ids_of peers) (some (get_date host.now)))

  turn-IsPeerIndex :
      (s : MultiSig E) (i : ℕ)
      → Since host.state_context (whole_from s0) s
      → is_turn (get_current_turn_ind host s) i ≡ true
      → IsPeerIndex (length s0.guards_pk) (some i)
  turn-IsPeerIndex s i k h =
      is_turn-IsPeerIndex (get_current_turn_ind host s) (length s0.guards_pk) i
        ((Gives-turn_ind host host.state_context (whole_from s0)).given s k).0 h

  Gives-coordinate_in_turn :
      (tx_id : String) (t : TxQueued E)
      → Entry host.state_context (whole_from s0) tx_id t
      → Gives (Since host.state_context (whole_from s0)) Anything (coordinate_in_turn host tx_id t)
  unfolding coordinate_in_turn
  Gives-coordinate_in_turn tx_id t e = record {
    given = λ s i.
        let j =
          ((Gives-on_comm host.state_context (whole_from s0) (get_index host.enc)).given s i).1 in
        elim (Result-value (get_index host.enc s.comm).0) [
          | inr (x, h) ↦ rw h (tt, j)
          | inl (my_ind, h) ↦
              rw (h, is_my_turn-again host s my_ind h)
                ((Gives-if
                    (is_turn (get_current_turn_ind host s) my_ind
                      && not (is_turn t.coordinator my_ind))
                    (λ b.
                      Gives-coordinate tx_id t my_ind
                        (turn-IsPeerIndex s my_ind i
                          (and_left (is_turn (get_current_turn_ind host s) my_ind) _ b))
                        e)
                    (λ _. Gives-skip)).given
                  (record s { comm = (get_index host.enc s.comm).1 }) j)
        ];
  }

  Gives-restart :
      (tx_id : String) (found : Option (TxQueued E))
      → Found host.state_context (whole_from s0) tx_id found
      → Gives (Since host.state_context (whole_from s0)) Anything (restart host tx_id found)
  unfolding restart
  Gives-restart tx_id none f = Gives-skip
  Gives-restart tx_id (some t) f =
      let e : Entry host.state_context (whole_from s0) tx_id (restarted host t) = record {
        from = f.from;
        peer = f.peer;
      } in
      Gives-bind (Gives-put host.state_context (whole_from s0) tx_id (restarted host t) e)
        λ _ _. Gives-coordinate_in_turn tx_id (restarted host t) e

  pub Gives-handle_my_turn_for_tx :
      (tx_id : String)
      → Gives (Since host.state_context (whole_from s0)) Anything (handle_my_turn_for_tx host tx_id)
  unfolding handle_my_turn_for_tx
  Gives-handle_my_turn_for_tx tx_id =
      Gives-bind (Gives-lookup host.state_context (whole_from s0) tx_id)
        λ found f. Gives-restart tx_id found f

  Gives-all_my_turn :
      (mine : Bool)
      → Gives (Since host.state_context (whole_from s0)) Anything (all_my_turn host mine)
  unfolding all_my_turn
  Gives-all_my_turn false = Gives-skip
  Gives-all_my_turn true =
      Gives-bind (Gives-get_current_turn_id host host.state_context (whole_from s0)) λ _ _.
        Gives-bind (Gives-read (λ s. keys s.transactions))
          λ tx_ids _. Gives-for_each tx_ids Gives-handle_my_turn_for_tx

  pub Gives-handle_my_turn :
      Gives (Since host.state_context (whole_from s0)) Anything (handle_my_turn host)
  unfolding handle_my_turn
  Gives-handle_my_turn =
      Gives-bind (Gives-is_my_turn host host.state_context (whole_from s0))
        λ mine _. Gives-all_my_turn mine

  Leads-dispatch :
      (kind : String) (payload : MultiSigPayload) (signature : String) (index : ℕ)
      (peer_id : String)
      → Ends host s0 (dispatch host kind payload signature index peer_id)
  unfolding dispatch
  Leads-dispatch kind (generate_commitment tx_id) signature index peer_id =
      Leads-if (kind == generate_commitment_message)
        (λ _.
          Leads-Gives (sub host s0)
            (Gives-generate_commitment host host.state_context (whole_from s0) tx_id))
        (λ _. Leads-Gives (sub host s0) Gives-skip)
  Leads-dispatch kind (commitment tx_id c) signature index peer_id =
      Leads-if (kind == commitment_message)
        (λ _. Leads-Gives (sub host s0) (Gives-handle_commitment host s0 tx_id c signature index))
        (λ _. Leads-Gives (sub host s0) Gives-skip)
  Leads-dispatch kind (initiate_sign p) signature index peer_id =
      Leads-if (kind == initiate_sign_message)
        (λ _. Leads-Gives (sub host s0) (Gives-initiate_sign host s0 peer_id p index))
        (λ _. Leads-Gives (sub host s0) Gives-skip)
  Leads-dispatch kind (sign proof tx_id) signature index peer_id =
      Leads-if (kind == sign_message) (λ _. Leads-handle_sign host s0 proof tx_id index)
        (λ _. Leads-Gives (sub host s0) Gives-skip)
  Leads-dispatch kind (signed_tx tx_bytes) signature index peer_id =
      Leads-if (kind == signed_tx_message) (λ _. Leads-handle_signed_tx host s0 tx_bytes)
        (λ _. Leads-Gives (sub host s0) Gives-skip)

  pub Leads-process_message :
      (kind : String) (payload : MultiSigPayload) (signature : String) (index : ℕ)
      (peer_id : String) (timestamp : ℕ)
      → Ends host s0 (process_message host kind payload signature index peer_id timestamp)
  unfolding process_message
  Leads-process_message kind payload signature index peer_id timestamp =
      Leads-bind (sub host s0)
        (Gives-peers_must_be_initialized host host.state_context (whole_from s0))
        λ _ _. Leads-dispatch kind payload signature index peer_id
