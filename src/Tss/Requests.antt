-- ===== src/Tss/Requests.antt =====
-- Requests to sign: `handleRequestMessage`, what it asks of the guards, and `sign`.
pub mod Answers
pub mod Kept
pub mod Overlap
use sign_protocols.Prelude.{
  ℕ, String, Option, none, some, List, [], ◌∷◌, ◌++◌, Bool, true, false, not, ◌&&◌, is_empty, any,
  keep_if, if◌then◌else◌, ◌==◌,
}
use sign_protocols.Exec.{
  Result, ok, err, ◌>>=◌, ◌>>◌, pure, raise, lift, skip, modifies, gets, for_each,
}
use sign_protocols.Communicator.{get_date, send_message}
use sign_protocols.Detection.State.{ActiveGuard, Fired, GuardDetection}
use sign_protocols.Detection.Active.{active_guards}
use sign_protocols.Detection.Register.{register}
use sign_protocols.Tss.State.{
  Sign, PendingSign, SignPayload, SignResult, SignApprovePayload, Retry, Tss, Method, on_comm,
  on_detection, sign_payload_json, approve, cached, approve_message, cached_message,
}
use sign_protocols.Tss.Turns.{get_guard_turn, is_turn}
use sign_protocols.Tss.Queue.{get_sign, get_pending_sign, update_first_pending, call_back}
use sign_protocols.Prelude.Maps.{lookup}
use sign_protocols.Tss.Schemes.{check_path}
use sign_protocols.Tss.Approved.{SignerHost}

-- a guard whose key is not among the active ones
abbrev pub is_unknown : List ActiveGuard → ActiveGuard → Bool
is_unknown mine guard = not (any (λ item. item.public_key == guard.public_key) mine)

-- a guard whose key is among the active ones with another peer id
abbrev pub is_invalid : List ActiveGuard → ActiveGuard → Bool
is_invalid mine guard =
    any (λ item. item.public_key == guard.public_key && not (item.peer_id == guard.peer_id)) mine

-- what this guard signs when it approves a request
abbrev pub approval : Retry → SignApprovePayload
approval r = record { msg = r.msg; guards = r.guards; init_guard_index = r.guard_index }

module _ (host : SignerHost) where
  unfoldable pub get_unknown_guards : List ActiveGuard → Method (List ActiveGuard)
  get_unknown_guards guards = do
    mine ← on_detection (active_guards host.node)
    pure (keep_if (is_unknown mine) guards)

  unfoldable pub get_invalid_guards : List ActiveGuard → Method (List ActiveGuard)
  get_invalid_guards guards = do
    mine ← on_detection (active_guards host.node)
    pure (keep_if (is_invalid mine) guards)

  abbrev pub send : String → SignPayload → List String → ℕ → Method (Unit {0})
  send kind payload peers timestamp =
      on_comm (send_message host.enc host.node.now kind payload peers (some timestamp))

  -- The request stays for the time when this guard is asked to sign the message too.
  store_pending : Retry → Option PendingSign → Tss → Tss
  store_pending r none s = record s {
    pending_signs =
        s.pending_signs
        ++ record {
          msg = r.msg;
          guards = r.guards;
          index = r.guard_index;
          timestamp = r.timestamp;
          sender = r.sender;
        }
          ∷ [];
  }
  store_pending r (some old) s = record s {
    pending_signs =
        update_first_pending r.msg
          (λ pending. record pending {
            guards = r.guards;
            index = r.guard_index;
            timestamp = r.timestamp;
            sender = r.sender;
          })
          s.pending_signs;
  }

  register_unknown : Retry → Bool → List ActiveGuard → Method (Unit {0})
  register_unknown r false unknown = skip
  register_unknown r true unknown =
      for_each unknown λ guard. on_detection (register host.node guard.peer_id guard.public_key r)

  approve_if_known : Retry → List ActiveGuard → Method (Unit {0})
  approve_if_known r [] = send approve_message (approve (approval r)) (r.sender ∷ []) r.timestamp
  approve_if_known r (guard ∷ unknown) = skip

  -- the message is in the queue, or not
  answer_queued : Retry → Bool → Option Sign → Method (Unit {0})
  answer_queued r send_register none = modifies λ s. store_pending r (get_pending_sign r.msg s) s
  answer_queued r send_register (some sign) = do
    unknown ← get_unknown_guards r.guards
    register_unknown r send_register unknown
    approve_if_known r unknown

  -- a signature in the cache is sent back at once
  answer_valid : Retry → Bool → Option SignResult → Method (Unit {0})
  answer_valid r send_register (some result) =
      send cached_message (cached r.msg result) (r.sender ∷ []) r.timestamp
  answer_valid r send_register none = λ s. answer_queued r send_register (get_sign r.msg false s) s

  answer_request : Retry → Bool → List ActiveGuard → Method (Unit {0})
  answer_request r send_register (guard ∷ invalid) = skip
  answer_request r send_register [] =
      λ s. answer_valid r send_register (lookup r.msg s.sign_cache) s

  -- A request is given by its arguments, which the retry after a registration repeats.
  pub handle_request_message : Retry → Bool → Method (Unit {0})
  handle_request_message r send_register s =
      if is_turn (get_guard_turn host.node.now s) r.guard_index
      then (do invalid ← get_invalid_guards r.guards; answer_request r send_register invalid) s
      else skip s

  run_callback : Fired Retry → Method (Unit {0})
  run_callback f = if f.status then handle_request_message f.callback false else skip

  take_fired : Tss → Tss
  take_fired s = record s { detection = record s.detection { fired = [] } }

  -- The callbacks of registrations that have been called since: each is a method of its own.
  unfoldable pub run_callbacks : Method (Unit {0})
  unfolding run_callback take_fired
  run_callbacks s = for_each s.detection.fired (λ f s. (ok tt, (run_callback f s).1)) (take_fired s)

  abbrev pub new_sign : String → ℕ → String → Option (List ℕ) → Sign
  new_sign msg callback chain_code derivation_path = record {
    msg = msg;
    callback = callback;
    request = none;
    signs = [];
    added_time = get_date host.node.now;
    posted = false;
    chain_code = chain_code;
    derivation_path = derivation_path;
  }

  abbrev to_retry : PendingSign → Retry
  to_retry p = record {
    msg = p.msg;
    guards = p.guards;
    sender = p.sender;
    guard_index = p.index;
    timestamp = p.timestamp;
  }

  process_pending : Option PendingSign → Method (Unit {0})
  process_pending none = skip
  process_pending (some pending) = handle_request_message (to_retry pending) true

  -- what `sign` does after the wait for `signAccessMutex`
  unfoldable pub push_sign : Sign → Method (Unit {0})
  unfolding process_pending
  push_sign sign = do
    modifies λ s. record s { signs = s.signs ++ sign ∷ [] }
    pending ← gets (get_pending_sign sign.msg)
    process_pending pending

  sign_new : Sign → ℕ → Option SignResult → Method (Unit {0})
  unfolding push_sign
  sign_new sign callback (some result) =
      modifies (call_back callback true none (some result.signature) result.signature_recovery)
  sign_new sign callback none = push_sign sign

  sign_once : Sign → ℕ → Option Sign → Method (Unit {0})
  unfolding sign_new
  sign_once sign callback (some queued) = raise "already signing this message"
  sign_once sign callback none = λ s. sign_new sign callback (lookup sign.msg s.sign_cache) s

  -- The run of `sign` when no other call comes while it waits for the mutex; two calls that both
  -- wait go on with `push_sign`, one after the other, and do not look again.
  unfoldable pub sign : String → ℕ → String → Option (List ℕ) → Method (Unit {0})
  unfolding sign_once
  sign msg callback chain_code derivation_path s =
      sign_once (new_sign msg callback chain_code derivation_path) callback (get_sign msg true s) s

  unfoldable pub sign_promised : String → ℕ → String → Option (List ℕ) → Method (Unit {0})
  unfolding sign
  sign_promised msg callback chain_code derivation_path = do
    lift (check_path host.scheme derivation_path)
    sign msg callback chain_code derivation_path
