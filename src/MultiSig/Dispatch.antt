-- ===== src/MultiSig/Dispatch.antt =====
-- The guard's own turn, `processMessage`, and the inherited `handleMessage` in front of it.
pub mod Kept
pub mod Again
use sign_protocols.Prelude.{
  ℕ, String, Option, none, some, List, [], ◌∷◌, Bool, true, false, not, ◌&&◌, if◌then◌else◌, ◌==◌,
}
use sign_protocols.Prelude.Maps.{lookup, keys}
use sign_protocols.Exec.{Result, ok, err, ◌>>=◌, ◌>>◌, gets, lift, skip, for_each}
use sign_protocols.Communicator.{
  CommunicationMessage, get_index, send_message, get_date, handle_message,
}
use sign_protocols.Tss.Turns.{is_turn}
use sign_protocols.MultiSig.Data.{
  MultiSigPayload, generate_commitment, commitment, initiate_sign, sign, signed_tx,
  generate_commitment_message, commitment_message, initiate_sign_message, sign_message,
  signed_tx_message, multi_sig_payload_json,
}
use sign_protocols.MultiSig.Ergo.{ErgoLib}
use sign_protocols.MultiSig.State.{TxQueued, MultiSig, MultiSigHost, Method, on_comm, put}
use sign_protocols.MultiSig.Turns.{
  ids_of, peers_with_ids, get_current_turn_id, is_my_turn, peers_must_be_initialized,
}
use sign_protocols.MultiSig.Queue
use sign_protocols.MultiSig.Commit.{handle_commitment}
use sign_protocols.MultiSig.Signing
use sign_protocols.MultiSig.Signing.{handle_sign, handle_signed_tx}

module _ {E : ErgoLib} (host : MultiSigHost E) where
  -- what `handleMyTurnForTx` resets
  abbrev pub restarted : TxQueued E → TxQueued E
  restarted t = record t {
    simulated_bag = some E.empty_bag;
    commitments = [];
    commitment_signs = [];
    signs = [];
  }

  unfoldable pub coordinate : String → TxQueued E → ℕ → Method E (Unit {0})
  coordinate tx_id t my_ind = do
    turn_id ← get_current_turn_id host
    put tx_id (record t { coordinator = some my_ind })
    Queue.generate_commitment host tx_id
    peers ← peers_with_ids host
    on_comm (
        send_message host.enc host.now generate_commitment_message (generate_commitment tx_id)
          (ids_of peers) (some (get_date host.now)))

  -- `t` is the entry as it was reset.
  unfoldable pub coordinate_in_turn : String → TxQueued E → Method E (Unit {0})
  unfolding coordinate
  coordinate_in_turn tx_id t = do
    my_ind ← on_comm (get_index host.enc)
    mine ← is_my_turn host
    if mine && not (is_turn t.coordinator my_ind) then coordinate tx_id t my_ind else skip

  unfoldable pub restart : String → Option (TxQueued E) → Method E (Unit {0})
  unfolding coordinate_in_turn
  restart tx_id none = skip
  restart tx_id (some t) = do put tx_id (restarted t); coordinate_in_turn tx_id (restarted t)

  unfoldable pub handle_my_turn_for_tx : String → Method E (Unit {0})
  unfolding restart
  handle_my_turn_for_tx tx_id = do
    found ← gets λ s. lookup tx_id s.transactions
    restart tx_id found

  -- No key is added or removed in the loop.
  unfoldable pub all_my_turn : Bool → Method E (Unit {0})
  unfolding handle_my_turn_for_tx
  all_my_turn false = skip
  all_my_turn true = do
    turn_id ← get_current_turn_id host
    tx_ids ← gets λ s. keys s.transactions
    for_each tx_ids handle_my_turn_for_tx

  unfoldable pub handle_my_turn : Method E (Unit {0})
  unfolding all_my_turn
  handle_my_turn = do mine ← is_my_turn host; all_my_turn mine

  -- A payload is of the shape that its message's type says; others are not modelled and skipped.
  unfoldable pub dispatch : String → MultiSigPayload → String → ℕ → String → Method E (Unit {0})
  dispatch kind (generate_commitment tx_id) signature index peer_id =
      if kind == generate_commitment_message then Queue.generate_commitment host tx_id else skip
  dispatch kind (commitment tx_id c) signature index peer_id =
      if kind == commitment_message then handle_commitment host tx_id c signature index else skip
  dispatch kind (initiate_sign p) signature index peer_id =
      if kind == initiate_sign_message then Signing.initiate_sign host peer_id p index else skip
  dispatch kind (sign proof tx_id) signature index peer_id =
      if kind == sign_message then handle_sign host proof tx_id index else skip
  dispatch kind (signed_tx tx_bytes) signature index peer_id =
      if kind == signed_tx_message then handle_signed_tx host tx_bytes else skip

  unfoldable pub process_message :
      String → MultiSigPayload → String → ℕ → String → ℕ → Method E (Unit {0})
  unfolding dispatch
  process_message kind payload signature index peer_id timestamp = do
    peers_must_be_initialized host
    dispatch kind payload signature index peer_id

  unfoldable pub receive :
      Option (CommunicationMessage MultiSigPayload) → String → Method E (Unit {0})
  unfolding process_message
  receive msg peer_id =
      handle_message host.enc (λ (s : MultiSig E). s.comm) process_message host.now msg peer_id
