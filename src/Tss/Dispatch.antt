-- ===== src/Tss/Dispatch.antt =====
-- `processMessage`, and the inherited `handleMessage` in front of it.
use sign_protocols.Prelude.{ℕ, String, Option, true, if◌then◌else◌, ◌==◌}
use sign_protocols.Exec.{skip}
use sign_protocols.Communicator.{CommunicationMessage, handle_message}
use sign_protocols.Tss.State.{
  SignPayload, Tss, Method, sign_payload_json, request, approve, cached, start, request_message,
  approve_message, cached_message, start_message,
}
use sign_protocols.Tss.Approved.{SignerHost}
use sign_protocols.Tss.Requests.{handle_request_message}
use sign_protocols.Tss.Approvals.{handle_approve_message, handle_start_message}
use sign_protocols.Tss.Results.{handle_sign_cached_message}

module _ (host : SignerHost) where
  -- A payload is of the shape that its message's type says; others are not modelled and skipped.
  unfoldable pub process_message :
      String → SignPayload → String → ℕ → String → ℕ → Method (Unit {0})
  process_message kind (request msg guards) sign sender_index peer_id timestamp =
      if kind == request_message
      then handle_request_message host
          (record {
            msg = msg;
            guards = guards;
            sender = peer_id;
            guard_index = sender_index;
            timestamp = timestamp;
          })
          true
      else skip
  process_message kind (approve payload) sign sender_index peer_id timestamp =
      if kind == approve_message
      then handle_approve_message host payload peer_id sender_index sign
      else skip
  process_message kind (cached msg result) sign sender_index peer_id timestamp =
      if kind == cached_message then handle_sign_cached_message host msg result else skip
  process_message kind (start msg signs guards) sign sender_index peer_id timestamp =
      if kind == start_message
      then handle_start_message host msg signs guards timestamp sender_index peer_id
      else skip

  unfoldable pub receive : Option (CommunicationMessage SignPayload) → String → Method (Unit {0})
  unfolding process_message
  receive msg peer_id =
      handle_message host.enc (λ (s : Tss). s.comm) process_message host.node.now msg peer_id
