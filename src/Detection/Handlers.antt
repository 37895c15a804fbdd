-- ===== src/Detection/Handlers.antt =====
-- The messages of other guards: `processMessage` and the three handlers.
pub mod Approval
pub mod Placed
pub mod Activation
pub mod Return
use sign_protocols.Prelude.{
  ℕ, String, Option, none, some, List, [], ◌∷◌, ◌++◌, Bool, true, false, map, any, get_elem?,
  modify, if◌then◌else◌, ◌==◌,
}
use sign_protocols.Exec.{Result, ok, err, ◌>>=◌, ◌>>◌, modifies, skip, raise, caught}
use sign_protocols.Communicator.{get_date, handle_message, CommunicationMessage}
use sign_protocols.Detection.State.{
  Nonce, GuardInfo, GuardDetection, DetectionPayload, Fired, Host, Method, detection_payload_json,
  approve_message, register_message, heartbeat_message,
}
use sign_protocols.Detection.Nonces.{clear_nonce, add_nonce}
use sign_protocols.Detection.Update.{send}

-- `nonce.bytes === receivedNonce`
abbrev pub is_nonce : Option String → Nonce → Bool
is_nonce none nonce = false
is_nonce (some text) nonce = nonce.bytes == text

module _ {C : Type 0} where
  -- every waiting callback is called with `true`
  abbrev pub fire_all : List C → List (Fired C)
  fire_all callbacks = map (λ c. record { callback = c; status = true; reason = none }) callbacks

  abbrev pub approved : String → ℕ → GuardInfo C → GuardInfo C
  approved sender date info = record info {
    peer_id = sender;
    last_update = date;
    callback = [];
    nonce = [];
  }

module _ {C : Type 0} (host : Host) where
  -- the entry of the sender when its nonce was found
  accept_approval : String → ℕ → GuardInfo C → GuardDetection C → GuardDetection C
  accept_approval sender guard_index info s = record s {
    guards_info = modify s.guards_info guard_index (approved sender (get_date host.now));
    fired = s.fired ++ fire_all info.callback;
  }

  -- `if (nonce)`: an empty text counts as absent.
  answer : Option String → String → Method C (Unit {0})
  answer none sender = skip
  answer (some nonce) sender =
      if nonce == "" then skip else send host approve_message none (some nonce) (sender ∷ [])

  check_approval : DetectionPayload → String → ℕ → Option (GuardInfo C) → Method C (Unit {0})
  unfolding accept_approval answer
  check_approval payload sender guard_index none = raise "TypeError"
  check_approval payload sender guard_index (some info) =
      if any (is_nonce payload.received_nonce) info.nonce
      then modifies (accept_approval sender guard_index info) >> answer payload.nonce sender
      else skip

  unfoldable pub handle_approve_message : DetectionPayload → String → ℕ → Method C (Unit {0})
  unfolding check_approval
  handle_approve_message payload sender guard_index s =
      let cleared = clear_nonce host s in
      caught (check_approval payload sender guard_index (get_elem? cleared.guards_info guard_index))
        cleared

  unfoldable pub handle_register_message : DetectionPayload → String → ℕ → Method C (Unit {0})
  handle_register_message payload sender guard_index = caught do
    nonce ← add_nonce host (some guard_index)
    send host approve_message (some nonce) payload.nonce (sender ∷ [])

  unfoldable pub handle_heartbeat_message : DetectionPayload → String → ℕ → Method C (Unit {0})
  handle_heartbeat_message payload sender guard_index =
      caught (send host approve_message none payload.nonce (sender ∷ []))

  unfoldable pub process_message :
      String → DetectionPayload → String → ℕ → String → ℕ → Method C (Unit {0})
  process_message kind payload sign sender_index peer_id timestamp =
      if kind == approve_message
      then handle_approve_message payload peer_id sender_index
      else if kind == heartbeat_message
      then handle_heartbeat_message payload peer_id sender_index
      else if kind == register_message
      then handle_register_message payload peer_id sender_index
      else skip

  -- the inherited `handleMessage` with this class's `processMessage`
  unfoldable pub receive :
      Option (CommunicationMessage DetectionPayload) → String → Method C (Unit {0})
  unfolding process_message
  receive msg peer_id =
      handle_message host.enc (λ (s : GuardDetection C). s.comm) process_message host.now msg
        peer_id
