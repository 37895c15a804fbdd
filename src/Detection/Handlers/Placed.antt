-- ===== src/Detection/Handlers/Placed.antt =====
-- The places of the entries in the handlers.
use sign_protocols.Prelude.{
  ℕ, String, refl, ◌∙◌, Option, none, some, [], ◌∷◌, arith, any, get_elem?, Bool-cases, inl, inr,
  ◌==◌,
}
use sign_protocols.Exec.{modifies}
use sign_protocols.Exec.Invariance.{Keeps, Keeps-bind, Keeps-caught}
use sign_protocols.Communicator.{CommunicationMessage, get_date}
use sign_protocols.Communicator.Handling.{handle_message-Keeps}
use sign_protocols.Detection.State.{
  GuardInfo, GuardDetection, DetectionPayload, Host, approve_message, register_message,
  heartbeat_message, detection_payload_json,
}
use sign_protocols.Detection.Nonces.{clear_nonce}
use sign_protocols.Detection.Handlers.{
  is_nonce, approved, accept_approval, answer, check_approval, handle_approve_message,
  handle_register_message, handle_heartbeat_message, process_message, receive,
}
use sign_protocols.Detection.Places.{
  IsAligned, map_place-modify, send-IsAligned, clear_nonce-IsAligned, add_nonce-IsAligned,
}

module _ {C : Type 0} (host : Host) where
  answer-IsAligned :
      (nonce : Option String) (sender : String)
      → Keeps (IsAligned {C = C}) (answer host nonce sender)
  unfolding answer
  answer-IsAligned none sender = record { kept = λ s a. a }
  answer-IsAligned (some n) sender = record {
    kept = λ s a.
        ground (arith, (send-IsAligned host approve_message none (some n) (sender ∷ [])).kept s a);
  }

  accept_approval-IsAligned :
      (sender : String) (i : ℕ) (info : GuardInfo C)
      → Keeps (IsAligned {C = C}) (modifies (accept_approval host sender i info))
  unfolding accept_approval
  accept_approval-IsAligned sender i info = record {
    kept = λ s a.
        map_place-modify (approved sender (get_date host.now)) s.guards_info i (λ x. refl) ∙ a;
  }

  check_approval-IsAligned :
      (payload : DetectionPayload) (sender : String) (i : ℕ) (info : Option (GuardInfo C))
      → Keeps (IsAligned {C = C}) (check_approval host payload sender i info)
  unfolding check_approval
  check_approval-IsAligned payload sender i none = record { kept = λ s a. a }
  check_approval-IsAligned payload sender i (some info) =
      elim (Bool-cases (any (is_nonce payload.received_nonce) info.nonce)) [
        | inl e ↦ rw e (
            Keeps-bind (accept_approval-IsAligned sender i info)
              λ _. answer-IsAligned payload.nonce sender)
        | inr e ↦ rw e (record { kept = λ s a. a })
      ]

  handle_approve_message-IsAligned :
      (payload : DetectionPayload) (sender : String) (i : ℕ)
      → Keeps (IsAligned {C = C}) (handle_approve_message host payload sender i)
  unfolding handle_approve_message
  handle_approve_message-IsAligned payload sender i = record {
    kept = λ s a.
        (check_approval-IsAligned payload sender i
            (get_elem? (clear_nonce host s).guards_info i)).kept
          (clear_nonce host s) (clear_nonce-IsAligned host s a);
  }

  handle_register_message-IsAligned :
      (payload : DetectionPayload) (sender : String) (i : ℕ)
      → Keeps (IsAligned {C = C}) (handle_register_message host payload sender i)
  unfolding handle_register_message
  handle_register_message-IsAligned payload sender i = Keeps-caught (
      Keeps-bind (add_nonce-IsAligned host (some i))
        λ nonce. send-IsAligned host approve_message (some nonce) payload.nonce (sender ∷ []))

  handle_heartbeat_message-IsAligned :
      (payload : DetectionPayload) (sender : String) (i : ℕ)
      → Keeps (IsAligned {C = C}) (handle_heartbeat_message host payload sender i)
  unfolding handle_heartbeat_message
  handle_heartbeat_message-IsAligned payload sender i =
      Keeps-caught (send-IsAligned host approve_message none payload.nonce (sender ∷ []))

  process_message-IsAligned :
      (kind : String) (payload : DetectionPayload) (sign : String) (i : ℕ) (peer : String)
      (time : ℕ)
      → Keeps (IsAligned {C = C}) (process_message host kind payload sign i peer time)
  unfolding process_message
  process_message-IsAligned kind payload sign i peer time =
      elim (Bool-cases (kind == approve_message)) [
        | inl e ↦ rw e (handle_approve_message-IsAligned payload peer i)
        | inr e ↦ elim (Bool-cases (kind == heartbeat_message)) [
          | inl f ↦ rw (e, f) (handle_heartbeat_message-IsAligned payload peer i)
          | inr f ↦ elim (Bool-cases (kind == register_message)) [
            | inl g ↦ rw (e, f, g) (handle_register_message-IsAligned payload peer i)
            | inr g ↦ rw (e, f, g) (record { kept = λ s a. a })
          ]
        ]
      ]

  pub receive-IsAligned :
      (msg : Option (CommunicationMessage DetectionPayload)) (peer : String)
      → Keeps (IsAligned {C = C}) (receive host msg peer)
  unfolding receive
  receive-IsAligned msg peer =
      handle_message-Keeps host.enc (λ (s : GuardDetection C). s.comm) (process_message host)
        IsAligned host.now msg peer
        (λ kind payload sign i time. process_message-IsAligned kind payload sign i peer time)
