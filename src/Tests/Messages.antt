-- ===== src/Tests/Messages.antt =====
-- Messages between two nodes, tried on concrete keys.
use sign_protocols.Prelude.{◌≡◌, ◌⊎◌, refl, none, some, [], ◌∷◌, arith, eq_iff}
use sign_protocols.Exec.{ok}
use sign_protocols.Communicator.{
  get_index, Communicator, CommunicationMessage, get_date, or_default, change_pks, signed_message,
  send_message, handle_message,
}
use sign_protocols.Communicator.Handling.{Accepts, handle_message-guards}
use sign_protocols.Communicator.Delivery.{handle_message-send_message, change_pks_loses_messages}
use sign_protocols.Detection.State.{DetectionPayload, detection_payload_json}
use sign_protocols.Tests.Data.{keys_of, fresh_comm, Inbox, take_kind, empty_inbox, payload}

abbrev comm_b : Communicator DetectionPayload
comm_b = fresh_comm

abbrev message : CommunicationMessage DetectionPayload
message = record {
  kind = "approval";
  sign = "B";
  timestamp = 30;
  public_key = "B";
  payload = payload;
  index = 1;
}

handle_message-guards_example :
    (Accepts (keys_of "A") (λ (s : Inbox). s.0) take_kind 70000 message empty_inbox
      × (handle_message
            (keys_of "A")
            (λ (s : Inbox). s.0)
            take_kind
            70000
            (some message)
            "peer-b"
            empty_inbox
          ≡ take_kind "approval" payload "B" 1 "peer-b" 30 empty_inbox))
    ⊎ ((¬ Accepts (keys_of "A") (λ (s : Inbox). s.0) take_kind 70000 message empty_inbox)
        × ((handle_message
              (keys_of "A")
              (λ (s : Inbox). s.0)
              take_kind
              70000
              (some message)
              "peer-b"
              empty_inbox).1
            ≡ empty_inbox))
handle_message-guards_example =
    handle_message-guards (keys_of "A") (λ (s : Inbox). s.0) take_kind 70000 message "peer-b"
      empty_inbox

handle_message-send_message_example :
    let msg =
      signed_message (keys_of "B") "approval" payload (or_default none (get_date 50000)) 1 in
    ((send_message (keys_of "B") 50000 "approval" payload ("peer-a" ∷ []) none comm_b).0 ≡ ok tt)
    × ((send_message (keys_of "B") 50000 "approval" payload ("peer-a" ∷ []) none comm_b).1.outbox
        ≡ record { message = msg; peers = "peer-a" ∷ [] } ∷ [])
    × (handle_message
          (keys_of "A")
          (λ (s : Inbox). s.0)
          take_kind
          70000
          (some msg)
          "peer-b"
          empty_inbox
        ≡ take_kind "approval" payload msg.sign 1 "peer-b" msg.timestamp empty_inbox)
handle_message-send_message_example =
    handle_message-send_message (keys_of "B") (keys_of "A") (λ (s : Inbox). s.0) take_kind 50000
      70000 "approval" payload ("peer-a" ∷ []) none "peer-b" comm_b empty_inbox 1 (λ text. refl)
      (unfold get_index in refl) refl refl (unfold get_date in omega arith)

abbrev swapped : Inbox
swapped = (record comm_b { guard_pks = "B" ∷ "A" ∷ [] }, [])

change_pks_loses_messages_example :
    let msg =
      signed_message (keys_of "B") "approval" payload (or_default none (get_date 50000)) 1 in
    ((send_message
        (keys_of "B")
        50000
        "approval"
        payload
        ("peer-a" ∷ [])
        none
        (change_pks ("B" ∷ "A" ∷ []) (record comm_b { index = some 1 }))).1.outbox
      ≡ record { message = msg; peers = "peer-a" ∷ [] } ∷ [])
    × ((handle_message
          (keys_of "A")
          (λ (s : Inbox). s.0)
          take_kind
          70000
          (some msg)
          "peer-b"
          swapped).1
        ≡ swapped)
change_pks_loses_messages_example =
    change_pks_loses_messages (keys_of "B") (keys_of "A") (λ (s : Inbox). s.0) take_kind 50000 70000
      "approval" payload ("peer-a" ∷ []) ("B" ∷ "A" ∷ []) none "peer-b"
      (record comm_b { index = some 1 }) swapped 1 refl (λ e. ground (arith, e, eq_iff "A" "B"))
      refl
