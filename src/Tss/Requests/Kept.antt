-- ===== src/Tss/Requests/Kept.antt =====
-- The messages in the queue in `handleRequestMessage` and `sign`.
use sign_protocols.Prelude.{
  ℕ, String, ◌≡◌, Option, none, some, List, [], ◌∷◌, Bool, true, false, arith, Bool-cases,
  Option-cases, inl, inr,
}
use sign_protocols.Exec.Invariance.{Keeps, Keeps-bind, Keeps-for_each}
use sign_protocols.Detection.State.{ActiveGuard, Fired}
use sign_protocols.Tss.State.{Sign, SignPayload, PendingSign, SignResult, Retry, Tss}
use sign_protocols.Tss.Turns.{get_guard_turn, is_turn}
use sign_protocols.Tss.Queue.{get_sign, get_pending_sign}
use sign_protocols.Prelude.Maps.{lookup}
use sign_protocols.Tss.Schemes.{check_path}
use sign_protocols.Tss.Approved.{SignerHost}
use sign_protocols.Tss.Requests.{
  send, get_unknown_guards, get_invalid_guards, store_pending, register_unknown, approve_if_known,
  answer_queued, answer_valid, answer_request, handle_request_message, run_callback, take_fired,
  run_callbacks, new_sign, process_pending, sign_new, sign_once, sign, sign_promised,
}
use sign_protocols.Tss.Distinct.{
  IsDistinct, append-IsDistinct, on_comm-IsDistinct, on_detection-IsDistinct, Keeps-pure,
  Keeps-skip, Keeps-lift, Keeps-gets,
}

module _ (host : SignerHost) where
  pub send-IsDistinct :
      (kind : String) (payload : SignPayload) (peers : List String) (timestamp : ℕ)
      → Keeps IsDistinct (send host kind payload peers timestamp)
  send-IsDistinct kind payload peers timestamp = on_comm-IsDistinct _

  get_unknown_guards-IsDistinct :
      (guards : List ActiveGuard) → Keeps IsDistinct (get_unknown_guards host guards)
  unfolding get_unknown_guards
  get_unknown_guards-IsDistinct guards = Keeps-bind (on_detection-IsDistinct _) λ mine. Keeps-pure _

  get_invalid_guards-IsDistinct :
      (guards : List ActiveGuard) → Keeps IsDistinct (get_invalid_guards host guards)
  unfolding get_invalid_guards
  get_invalid_guards-IsDistinct guards = Keeps-bind (on_detection-IsDistinct _) λ mine. Keeps-pure _

  register_unknown-IsDistinct :
      (r : Retry) (b : Bool) (unknown : List ActiveGuard)
      → Keeps IsDistinct (register_unknown host r b unknown)
  unfolding register_unknown
  register_unknown-IsDistinct r false unknown = Keeps-skip
  register_unknown-IsDistinct r true unknown =
      Keeps-for_each unknown λ guard. on_detection-IsDistinct _

  approve_if_known-IsDistinct :
      (r : Retry) (unknown : List ActiveGuard) → Keeps IsDistinct (approve_if_known host r unknown)
  unfolding approve_if_known
  approve_if_known-IsDistinct r [] = on_comm-IsDistinct _
  approve_if_known-IsDistinct r (guard ∷ unknown) = Keeps-skip

  store_pending-IsDistinct :
      (r : Retry) (old : Option PendingSign) (s : Tss)
      → IsDistinct s
      → IsDistinct (store_pending host r old s)
  unfolding store_pending
  store_pending-IsDistinct r none s d = d
  store_pending-IsDistinct r (some old) s d = d

  answer_queued-IsDistinct :
      (r : Retry) (b : Bool) (queued : Option Sign)
      → Keeps IsDistinct (answer_queued host r b queued)
  unfolding answer_queued
  answer_queued-IsDistinct r b none = record {
    kept = λ s d. store_pending-IsDistinct r (get_pending_sign r.msg s) s d;
  }
  answer_queued-IsDistinct r b (some queued) =
      Keeps-bind (get_unknown_guards-IsDistinct r.guards) λ unknown.
        Keeps-bind (register_unknown-IsDistinct r b unknown)
          λ _. approve_if_known-IsDistinct r unknown

  answer_valid-IsDistinct :
      (r : Retry) (b : Bool) (found : Option SignResult)
      → Keeps IsDistinct (answer_valid host r b found)
  unfolding answer_valid
  answer_valid-IsDistinct r b (some result) = on_comm-IsDistinct _
  answer_valid-IsDistinct r b none = record {
    kept = λ s d. (answer_queued-IsDistinct r b (get_sign r.msg false s)).kept s d;
  }

  answer_request-IsDistinct :
      (r : Retry) (b : Bool) (invalid : List ActiveGuard)
      → Keeps IsDistinct (answer_request host r b invalid)
  unfolding answer_request
  answer_request-IsDistinct r b (guard ∷ invalid) = Keeps-skip
  answer_request-IsDistinct r b [] = record {
    kept = λ s d. (answer_valid-IsDistinct r b (lookup r.msg s.sign_cache)).kept s d;
  }

  pub handle_request_message-IsDistinct :
      (r : Retry) (b : Bool) → Keeps IsDistinct (handle_request_message host r b)
  unfolding handle_request_message
  handle_request_message-IsDistinct r b = record {
    kept = λ s d. elim (Bool-cases (is_turn (get_guard_turn host.node.now s) r.guard_index)) [
      | inl e ↦
          let k =
            (Keeps-bind (get_invalid_guards-IsDistinct r.guards)
                (answer_request-IsDistinct r b)).kept
              s d in
          ground (arith, k)
      | inr e ↦ ground (arith, d)
    ];
  }

  run_callback-IsDistinct : (f : Fired Retry) → Keeps IsDistinct (run_callback host f)
  unfolding run_callback
  run_callback-IsDistinct f = record {
    kept = λ s d. elim (Bool-cases f.status) [
      | inl e ↦
          let k = (handle_request_message-IsDistinct f.callback false).kept s d in ground (arith, k)
      | inr e ↦ ground (arith, d)
    ];
  }

  pub run_callbacks-IsDistinct : Keeps IsDistinct (run_callbacks host)
  unfolding run_callbacks take_fired
  run_callbacks-IsDistinct = record {
    kept = λ s d.
        (Keeps-for_each s.detection.fired
            λ f. record { kept = λ t. (run_callback-IsDistinct f).kept t }).kept
          (take_fired host s) d;
  }

  process_pending-IsDistinct :
      (pending : Option PendingSign) → Keeps IsDistinct (process_pending host pending)
  unfolding process_pending
  process_pending-IsDistinct none = Keeps-skip
  process_pending-IsDistinct (some pending) = handle_request_message-IsDistinct _ true

  sign_new_lem :
      (item : Sign) (callback : ℕ) (found : Option SignResult) (s : Tss)
      → get_sign item.msg true s ≡ none
      → IsDistinct s
      → IsDistinct (sign_new host item callback found s).1
  unfolding sign_new
  sign_new_lem item callback (some result) s h d = d
  sign_new_lem item callback none s h d =
      (Keeps-bind (Keeps-gets (get_pending_sign item.msg)) (process_pending-IsDistinct)).kept _
        (append-IsDistinct s item h d)

  sign-IsDistinct :
      (msg : String) (callback : ℕ) (chain_code : String) (path : Option (List ℕ))
      → Keeps IsDistinct (sign host msg callback chain_code path)
  unfolding sign sign_once
  sign-IsDistinct msg callback chain_code path = record {
    kept = λ s d. elim (Option-cases (get_sign msg true s)) [
      | inl e ↦
          let k =
            sign_new_lem (new_sign host msg callback chain_code path) callback
              (lookup msg s.sign_cache) s e d in
          ground (arith, k)
      | inr (item, e) ↦ ground (arith, d)
    ];
  }

  pub sign_promised-IsDistinct :
      (msg : String) (callback : ℕ) (chain_code : String) (path : Option (List ℕ))
      → Keeps IsDistinct (sign_promised host msg callback chain_code path)
  unfolding sign_promised
  sign_promised-IsDistinct msg callback chain_code path =
      Keeps-bind (Keeps-lift (check_path host.scheme path))
        λ _. sign-IsDistinct msg callback chain_code path
