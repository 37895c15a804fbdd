-- ===== src/Tss/Approvals.antt =====
-- Starting a signature: `handleApproveMessage` at the guard that asked, `handleStartMessage` at the
-- others.
pub mod Approval
pub mod Kept
use sign_protocols.Prelude.{
  ℕ, String, Option, none, some, List, [], ◌∷◌, Bool, true, false, not, ◌||◌, map, length, keep_if,
  any, if◌then◌else◌, ◌==◌,
}
use sign_protocols.Exec.{Result, ok, err, ◌>>=◌, ◌>>◌, skip, modifies, gets, lift, caught}
use sign_protocols.Communicator.{get_index, send_message}
use sign_protocols.Detection.State.{ActiveGuard}
use sign_protocols.Tss.State.{
  Sign, Request, SignPayload, SignApprovePayload, Tss, Method, on_comm, meets, sign_payload_json,
  start, start_message,
}
use sign_protocols.Tss.Turns.{get_guard_turn, is_turn, is_no_work_time}
use sign_protocols.Tss.Queue.{get_sign, update_sign}
use sign_protocols.Tss.Approved.{SignerHost, get_approved_guards, start_sign}
use sign_protocols.Tss.Requests.{send}
use sign_protocols.Tss.Round.{write}

-- `sign.signs[index] = signature`
abbrev pub add_signature : ℕ → String → Sign → Sign
add_signature index signature sign = record sign { signs = write sign.signs index signature }

module _ (host : SignerHost) where
  -- the guards that get the start message: all that approved but this one
  abbrev pub others : List ActiveGuard → List String
  others guards = map (λ g. g.peer_id) (keep_if (λ g. not (g.public_key == host.enc.get_pk)) guards)

  announce : Sign → Request → List ActiveGuard → Option Sign → Method (Unit {0})
  announce sign req guards none = skip
  announce sign req guards (some open_sign) = do
    send host start_message (start sign.msg sign.signs req.guards) (others guards) req.timestamp
    modifies (start_sign host sign.msg guards)

  start_if_enough : Sign → Request → List ActiveGuard → Method (Unit {0})
  unfolding announce
  start_if_enough sign req guards s =
      if meets (length guards) s.threshold.value
      then announce sign req guards (get_sign sign.msg false s) s
      else skip s

  -- `sign` is the object in the queue after the write of the new signature
  count_approvals : Sign → Request → Method (Unit {0})
  unfolding start_if_enough
  count_approvals sign req = do
    index ← on_comm (get_index host.enc)
    pks ← gets (λ s. s.guard_pks)
    guards ← lift (
        get_approved_guards host.enc pks req.timestamp
          (record { msg = sign.msg; guards = req.guards; init_guard_index = index }) sign.signs
          req.guards)
    start_if_enough sign req guards

  approve_requested : ℕ → String → Sign → Option Request → Method (Unit {0})
  unfolding count_approvals
  approve_requested guard_index signature sign none s = skip s
  approve_requested guard_index signature sign (some req) s =
      if is_no_work_time host.node.now s
      then skip s
      else caught (count_approvals (add_signature guard_index signature sign) req)
          (update_sign sign.msg (add_signature guard_index signature) s)

  approve_found : ℕ → String → Option Sign → Method (Unit {0})
  unfolding approve_requested
  approve_found guard_index signature none = skip
  approve_found guard_index signature (some sign) =
      approve_requested guard_index signature sign sign.request

  unfoldable pub handle_approve_message :
      SignApprovePayload → String → ℕ → String → Method (Unit {0})
  unfolding approve_found
  handle_approve_message payload sender guard_index signature s =
      approve_found guard_index signature (get_sign payload.msg false s) s

  post_if_enough : String → List ActiveGuard → Method (Unit {0})
  post_if_enough msg guards s =
      if meets (length guards) s.threshold.value
      then (ok tt, start_sign host msg guards s)
      else skip s

  check_start : String → List (Option String) → List ActiveGuard → ℕ → ℕ → Method (Unit {0})
  unfolding post_if_enough
  check_start msg signs guards timestamp guard_index = do
    pks ← gets (λ s. s.guard_pks)
    approved ← lift (
        get_approved_guards host.enc pks timestamp
          (record { msg = msg; guards = guards; init_guard_index = guard_index }) signs guards)
    post_if_enough msg approved

  start_found : List (Option String) → List ActiveGuard → ℕ → ℕ → Option Sign → Method (Unit {0})
  unfolding check_start
  start_found signs guards timestamp guard_index none s = skip s
  start_found signs guards timestamp guard_index (some sign) s =
      if not (is_turn (get_guard_turn host.node.now s) guard_index)
      then skip s
      else if not (any (λ g. g.public_key == host.enc.get_pk) guards)
      then skip s
      else check_start sign.msg signs guards timestamp guard_index s

  unfoldable pub handle_start_message :
      String → List (Option String) → List ActiveGuard → ℕ → ℕ → String → Method (Unit {0})
  unfolding start_found
  handle_start_message msg signs guards timestamp guard_index sender s =
      start_found signs guards timestamp guard_index (get_sign msg false s) s
