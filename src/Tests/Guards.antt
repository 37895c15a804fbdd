-- ===== src/Tests/Guards.antt =====
-- The detection of active guards, tried on two guards.
use mathlib.Core.List.{Mem}
use mathlib.Core.Logic.{◌∨₁◌}
use sign_protocols.Prelude.{
  ◌↔◌, ℕ, ◌≡◌, refl, none, some, List, [], ◌∷◌, true, false, arith, get_elem?, eq_iff,
}
use sign_protocols.Exec.{ok}
use sign_protocols.Communicator.{get_date, get_index}
use sign_protocols.Detection.State.{ActiveGuard, GuardDetection, detection_payload_json}
use sign_protocols.Detection.Nonces.{splice_stale, clear_nonce, new_nonce, push_nonce, add_nonce}
use sign_protocols.Detection.Nonces.Freshness.{add_nonce-zero}
use sign_protocols.Detection.Active.{active_guards, sort}
use sign_protocols.Detection.Active.Listed.{IsHeard, active_guards-lists}
use sign_protocols.Detection.Handlers.{handle_approve_message}
use sign_protocols.Detection.Handlers.Approval.{IsAnswered, handle_approve_message-once}
use sign_protocols.Detection.Handlers.Activation.{approved_is_active}
use sign_protocols.Detection.Update.{update, change_pks}
use sign_protocols.Detection.State.{create}
use sign_protocols.Detection.Places.{IsAligned}
use sign_protocols.Detection.Reachable.{
  Reachable, created, after, updates, changes, Reachable-IsAligned,
}
use sign_protocols.Detection.Handlers.Return.{IsAnswered-add_nonce}
use sign_protocols.Tests.Data.{node_at, info_b, detection, payload, guard_a, guard_b}

cleared_b : get_elem? (clear_nonce (node_at 70000) detection).guards_info 1 ≡ some info_b
unfolding clear_nonce splice_stale get_date
cleared_b = refl

abbrev answer_b : IsAnswered (node_at 70000) payload 1 detection
answer_b = record { info = info_b; entry = cleared_b; returned = refl }

abbrev answered : GuardDetection ℕ
answered = (handle_approve_message (node_at 70000) payload "peer-b" 1 detection).1

handle_approve_message-once_example :
    (handle_approve_message (node_at 71000) payload "peer-b" 1 answered).1
    ≡ clear_nonce (node_at 71000) answered
handle_approve_message-once_example =
    handle_approve_message-once (node_at 70000) (node_at 71000) payload payload "peer-b" "peer-b" 1
      detection answer_b

add_nonce-zero_example :
    (add_nonce (node_at 70000) (some 0) detection ≡ add_nonce (node_at 70000) none detection)
    × ((add_nonce (node_at 70000) (some 0) detection).0 ≡ ok "r")
    × (get_elem? (add_nonce (node_at 70000) (some 0) detection).1.guards_info 1
        ≡ some (push_nonce (new_nonce (node_at 70000) detection) info_b))
add_nonce-zero_example = add_nonce-zero (node_at 70000) detection 1 info_b cleared_b

active_ab : (active_guards (node_at 70000) detection).0 ≡ ok (guard_a ∷ guard_b ∷ [])
unfolding active_guards get_index get_date sort
active_ab = refl

active_guards-lists_example :
    (guards : List ActiveGuard) × ((active_guards (node_at 70000) detection).0 ≡ ok guards)
    × ((guard : ActiveGuard)
        → Mem guard guards ↔ (
            IsHeard (node_at 70000) detection guard
            ∨₁ (guard
                ≡ record { key_first = true; peer_id = "peer-a"; public_key = "A"; index = 0 })))
active_guards-lists_example =
    active_guards-lists (node_at 70000) detection 0 (unfold get_index in refl)

listed_after : (active_guards (node_at 100000) answered).0 ≡ ok (guard_a ∷ guard_b ∷ [])
unfolding active_guards get_index get_date sort handle_approve_message clear_nonce splice_stale
listed_after = refl

approved_is_active_example :
    Mem
      (record { key_first = false; peer_id = "peer-b"; public_key = "B"; index = 1 })
      (guard_a ∷ guard_b ∷ [])
approved_is_active_example =
    approved_is_active (node_at 70000) (node_at 100000) payload "peer-b" 1 detection
      (guard_a ∷ guard_b ∷ []) answer_b (λ e. ground (arith, e, eq_iff "peer-b" ""))
      (unfold get_date in omega arith) listed_after

abbrev first : GuardDetection ℕ
first = create ("A" ∷ "B" ∷ []) none none none

abbrev second : GuardDetection ℕ
second = (update (node_at 70000) first).1

abbrev third : GuardDetection ℕ
third = (change_pks (node_at 80000) ("B" ∷ "A" ∷ "C" ∷ []) second).1

Reachable-third : Reachable third
Reachable-third =
    after second third
      (after first second (created ("A" ∷ "B" ∷ []) none none none) (updates (node_at 70000)))
      (changes (node_at 80000) ("B" ∷ "A" ∷ "C" ∷ []))

Reachable-IsAligned_example : IsAligned third
Reachable-IsAligned_example = Reachable-IsAligned third Reachable-third

IsAnswered-add_nonce_example :
    IsAnswered (node_at 100000) payload 1 (add_nonce (node_at 70000) (some 1) detection).1
IsAnswered-add_nonce_example =
    IsAnswered-add_nonce (node_at 70000) (node_at 100000) payload 1 detection info_b cleared_b
      (unfold get_date in omega arith) refl
