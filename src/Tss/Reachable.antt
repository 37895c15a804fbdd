-- ===== src/Tss/Reachable.antt =====
-- What holds of every state that a signer comes to, in whatever order messages and answers arrive
-- and its own work is done, each step with its own clock and its own answers of the tss service.
use sign_protocols.Prelude.{ℕ, String, Option, List, true, arith, Bool-cases, inl, inr, ◌==◌}
use sign_protocols.Exec.Invariance.{Keeps}
use sign_protocols.Communicator.{CommunicationMessage}
use sign_protocols.Communicator.Handling.{handle_message-Keeps}
use sign_protocols.Detection.State.{GuardDetection}
use sign_protocols.Tss.State.{
  SignPayload, Retry, Tss, SignerConfig, create, sign_payload_json, request, approve, cached, start,
  request_message, approve_message, cached_message, start_message,
}
use sign_protocols.Tss.Queue.{expire_cache}
use sign_protocols.Tss.Approved.{SignerHost}
use sign_protocols.Tss.Requests.{run_callbacks, sign_promised}
use sign_protocols.Tss.Requests.Kept.{
  handle_request_message-IsDistinct, run_callbacks-IsDistinct, sign_promised-IsDistinct,
}
use sign_protocols.Tss.Round.{update}
use sign_protocols.Tss.Round.Kept.{update-IsDistinct}
use sign_protocols.Tss.Approvals.Kept.{
  handle_approve_message-IsDistinct, handle_start_message-IsDistinct,
}
use sign_protocols.Tss.Results.{StatusEnum, handle_sign_data}
use sign_protocols.Tss.Results.Kept.{
  handle_sign_data-IsDistinct, handle_sign_cached_message-IsDistinct,
}
use sign_protocols.Tss.Dispatch.{process_message, receive}
use sign_protocols.Tss.Distinct.{IsDistinct}

-- One call, with no other one between its steps, of a method of the class, of a timer or of registered callbacks, at any time; the
-- detection, which others call too, may change at any time.
pub data Step (s : Tss) : Tss → Type 0 where
  updates : (host : SignerHost) → Step s (update host s).1
  receives :
      (host : SignerHost) (msg : Option (CommunicationMessage SignPayload)) (peer : String)
      → Step s (receive host msg peer s).1
  signs_promised :
      (host : SignerHost) (msg : String) (callback : ℕ) (chain_code : String)
      (path : Option (List ℕ))
      → Step s (sign_promised host msg callback chain_code path s).1
  answers :
      (host : SignerHost) (status : StatusEnum) (msg : String)
      (signature recovery error : Option String)
      → Step s (handle_sign_data host status msg signature recovery error s).1
  calls_back : (host : SignerHost) → Step s (run_callbacks host s).1
  expires : (now : ℕ) → Step s (expire_cache now s)
  detects : (detection : GuardDetection Retry) → Step s (record s { detection = detection })

-- the states that come from a constructor's
pub data Reachable : Tss → Type 0 where
  created : (crypto : String) (config : SignerConfig) → Reachable (create crypto config)
  after : (s s' : Tss) → Reachable s → Step s s' → Reachable s'

module _ (host : SignerHost) where
  process_message-IsDistinct :
      (kind : String) (payload : SignPayload) (sign : String) (i : ℕ) (peer : String) (time : ℕ)
      → Keeps IsDistinct (process_message host kind payload sign i peer time)
  unfolding process_message
  process_message-IsDistinct kind (request msg guards) sign i peer time = record {
    kept = λ s d. elim (Bool-cases (kind == request_message)) [
      | inl e ↦
          let k =
            (handle_request_message-IsDistinct host
                (record {
                  msg = msg;
                  guards = guards;
                  sender = peer;
                  guard_index = i;
                  timestamp = time;
                })
                true).kept
              s d in
          ground (arith, k)
      | inr e ↦ ground (arith, d)
    ];
  }
  process_message-IsDistinct kind (approve payload) sign i peer time = record {
    kept = λ s d. elim (Bool-cases (kind == approve_message)) [
      | inl e ↦
          let k = (handle_approve_message-IsDistinct host payload peer i sign).kept s d in
          ground (arith, k)
      | inr e ↦ ground (arith, d)
    ];
  }
  process_message-IsDistinct kind (cached msg result) sign i peer time = record {
    kept = λ s d. elim (Bool-cases (kind == cached_message)) [
      | inl e ↦
          let k = (handle_sign_cached_message-IsDistinct host msg result).kept s d in
          ground (arith, k)
      | inr e ↦ ground (arith, d)
    ];
  }
  process_message-IsDistinct kind (start msg signs guards) sign i peer time = record {
    kept = λ s d. elim (Bool-cases (kind == start_message)) [
      | inl e ↦
          let k = (handle_start_message-IsDistinct host msg signs guards time i peer).kept s d in
          ground (arith, k)
      | inr e ↦ ground (arith, d)
    ];
  }

  receive-IsDistinct :
      (msg : Option (CommunicationMessage SignPayload)) (peer : String)
      → Keeps IsDistinct (receive host msg peer)
  unfolding receive
  receive-IsDistinct msg peer =
      handle_message-Keeps host.enc (λ (s : Tss). s.comm) (process_message host) IsDistinct
        host.node.now msg peer
        (λ kind payload sign i time. process_message-IsDistinct kind payload sign i peer time)

Step-IsDistinct : (s s' : Tss) → Step s s' → IsDistinct s → IsDistinct s'
unfolding expire_cache
Step-IsDistinct s _ (updates host) d = (update-IsDistinct host).kept s d
Step-IsDistinct s _ (receives host msg peer) d = (receive-IsDistinct host msg peer).kept s d
Step-IsDistinct s _ (signs_promised host msg callback chain_code path) d =
    (sign_promised-IsDistinct host msg callback chain_code path).kept s d
Step-IsDistinct s _ (answers host status msg signature recovery error) d =
    (handle_sign_data-IsDistinct host status msg signature recovery error).kept s d
Step-IsDistinct s _ (calls_back host) d = (run_callbacks-IsDistinct host).kept s d
Step-IsDistinct s _ (expires now) d = d
Step-IsDistinct s _ (detects detection) d = d

create-IsDistinct : (crypto : String) (config : SignerConfig) → IsDistinct (create crypto config)
unfolding create
create-IsDistinct crypto config = tt

-- In every state that is reached by these steps, in which no call of `sign` comes while another
-- one waits for the mutex, no message stands twice in the queue.
pub Reachable-IsDistinct : (s : Tss) → Reachable s → IsDistinct s
Reachable-IsDistinct _ (created crypto config) = create-IsDistinct crypto config
Reachable-IsDistinct _ (after s s' r step) = Step-IsDistinct s s' step (Reachable-IsDistinct s r)
