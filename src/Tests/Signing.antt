-- ===== src/Tests/Signing.antt =====
-- The signing of a message, tried on two guards.
use sign_protocols.Prelude.{
  inr, String, ◌≡◌, ◌⊎◌, refl, Option, none, some, List, [], ◌∷◌, true, false, arith, replicate,
  eq_iff,
}
use sign_protocols.Exec.{ok}
use sign_protocols.Communicator.{get_date, get_index}
use sign_protocols.Detection.State.{ActiveGuard}
use sign_protocols.Detection.Active.{active_guards, sort}
use sign_protocols.Tss.State.{Sign, SignApprovePayload, Call, Tss}
use sign_protocols.Tss.Turns.{get_guard_turn, turn_of, is_turn}
use sign_protocols.Tss.Queue.{get_sign}
use sign_protocols.Tss.Schemes.{ecdsa, handle_successful_sign, settle}
use sign_protocols.Tss.Approved.{check_guard, get_approved_guards, sign_data, start_sign}
use sign_protocols.Tss.Quorum.{
  Approves, Selected, get_approved_guards-Selected, get_approved_guards-returns,
  get_approved_guards-replicate,
}
use sign_protocols.Tss.Approvals.{handle_start_message, handle_approve_message}
use sign_protocols.Tss.Approvals.Approval.{Approval, handle_approve_message-Approval}
use sign_protocols.Tss.Consent.{
  Consent, unsigned, handle_start_message-Consent, start_without_approvals,
}
use sign_protocols.Tss.Starting.{start_sign-start_sign}
use sign_protocols.Tss.Results.{
  success, handle_sign_data, handle_sign_cached_message, get_pk_and_verify_signature,
  wrapped_handle_successful_sign,
}
use sign_protocols.Tss.Settling.{handle_sign_cached_message-verified, settle-handle_successful_sign}
use sign_protocols.Tss.Requests.{handle_request_message}
use sign_protocols.Tss.Requests.Answers.{Answer, invalid_in, handle_request_message-Answer}
use sign_protocols.Tss.State.{SignerConfig, create}
use sign_protocols.Prelude.{ℕ}
use sign_protocols.Prelude.Maps.{lookup}
use sign_protocols.Tss.Queue.{get_pending_sign}
use sign_protocols.Tss.Requests.{new_sign, push_sign, sign}
use sign_protocols.Tss.Requests.Overlap.{sign-twice}
use sign_protocols.Tests.Data.{
  keys_of, detection_of, guard_keys, host_at, guard_a, guard_b, both, sign_of, signer_of, asked,
  retry, result,
}

abbrev waiting : Tss
waiting = signer_of (sign_of (some asked) false ∷ [])

abbrev both_signs : List (Option String)
both_signs = some "A" ∷ some "B" ∷ []

handle_start_message-Consent_example :
    ((handle_start_message (host_at 70000) "m" both_signs both 70 1 "peer-b" waiting).1.posts ≡ [])
    ⊎ Consent
        (host_at 70000)
        waiting
        "m"
        both_signs
        both
        70
        1
        (handle_start_message (host_at 70000) "m" both_signs both 70 1 "peer-b" waiting).1.posts
handle_start_message-Consent_example =
    handle_start_message-Consent (host_at 70000) "m" both_signs both 70 1 "peer-b" waiting

abbrev consent : SignApprovePayload
consent = record { msg = "m"; guards = both; init_guard_index = 0 }

handle_approve_message-Approval_example :
    ((handle_approve_message (host_at 12000) consent "peer-b" 1 "B" waiting).1.posts ≡ [])
    ⊎ Approval
        (host_at 12000)
        waiting
        "m"
        1
        "B"
        (handle_approve_message (host_at 12000) consent "peer-b" 1 "B" waiting).1.posts
handle_approve_message-Approval_example =
    handle_approve_message-Approval (host_at 12000) consent "peer-b" 1 "B" waiting

get_approved_guards-Selected_example :
    Selected (keys_of "A") guard_keys 11 consent both_signs both both
get_approved_guards-Selected_example =
    get_approved_guards-Selected (keys_of "A") guard_keys 11 consent both_signs both both
      (unfold get_approved_guards check_guard in refl)

Approves-b : Approves (keys_of "A") guard_keys 11 consent both_signs guard_b
Approves-b = record {
  place = 1;
  signature = "B";
  known = refl;
  given = refl;
  nonempty = λ e. ground (arith, e, eq_iff "B" "");
  verified = refl;
}

get_approved_guards-replicate_example :
    get_approved_guards (keys_of "A") guard_keys 11 consent both_signs (replicate 3 guard_b)
    ≡ ok (replicate 3 guard_b)
get_approved_guards-replicate_example =
    get_approved_guards-replicate (keys_of "A") guard_keys 11 consent both_signs 3 guard_b
      Approves-b

get_approved_guards-returns_example :
    (approved : List ActiveGuard) × (get_approved_guards
        (keys_of "A")
        guard_keys
        11
        consent
        both_signs
        both
      ≡ ok approved)
    × Selected (keys_of "A") guard_keys 11 consent both_signs both approved
get_approved_guards-returns_example =
    get_approved_guards-returns (keys_of "A") guard_keys 11 consent both_signs both
      (inr (0, "A", true, refl, refl, refl), (inr (1, "B", true, refl, refl, refl), tt))

abbrev new_signer_state : Tss
new_signer_state = record waiting { threshold = record { value = none; expiry = 0 } }

start_without_approvals_example :
    (handle_start_message
      (host_at 70000)
      "m"
      (unsigned guard_keys)
      both
      70
      1
      "peer-b"
      new_signer_state).1.posts
    ≡ sign_data (get_date 70000) new_signer_state (sign_of (some asked) false) "m" [] ∷ []
start_without_approvals_example =
    start_without_approvals (host_at 70000) "m" both 70 1 "peer-b" new_signer_state
      (sign_of (some asked) false) refl (unfold get_sign in refl)
      (unfold get_guard_turn turn_of get_date in refl) refl

start_sign-start_sign_example :
    start_sign (host_at 70000) "m" both (start_sign (host_at 70000) "m" (guard_b ∷ []) waiting)
    ≡ start_sign (host_at 70000) "m" (guard_b ∷ []) waiting
start_sign-start_sign_example =
    start_sign-start_sign (host_at 70000) "m" (guard_b ∷ []) both waiting

abbrev posted : Tss
posted = signer_of (sign_of (some asked) true ∷ [])

taken :
    (handle_sign_data (host_at 80000) success "m" (some "good") (some "00") none posted).0 ≡ ok tt
unfolding handle_sign_data wrapped_handle_successful_sign get_sign handle_successful_sign
taken = refl

handle_sign_cached_message-verified_example :
    ((handle_sign_cached_message (host_at 80000) "m" result waiting).1 ≡ waiting)
    ⊎ ((sign : Sign) × (get_sign "m" false waiting ≡ some sign)
        × (get_pk_and_verify_signature
              (host_at 80000)
              "ecdsa"
              sign.msg
              "good"
              sign.chain_code
              sign.derivation_path
            ≡ ok true))
handle_sign_cached_message-verified_example =
    handle_sign_cached_message-verified (host_at 80000) "m" result waiting

settle-handle_successful_sign_example :
    (call : Call) × ((handle_successful_sign ecdsa
        (sign_of none true)
        (some "good")
        (some "00")
        posted).1.calls
      ≡ call ∷ [])
    × (call.callback ≡ 5)
    × (settle ecdsa call ≡ ok (record { signature = "good"; signature_recovery = some "00" }))
settle-handle_successful_sign_example =
    settle-handle_successful_sign ecdsa (sign_of none true) "good" (some "00") posted
      (unfold handle_successful_sign in refl)

abbrev mine : List ActiveGuard
mine = guard_a ∷ []

handle_request_message-Answer_example :
    ((handle_request_message (host_at 70000) retry true waiting).1.outbox ≡ [])
    ⊎ ((is_turn (get_guard_turn 70000 waiting) 1 ≡ true)
        × (invalid_in (host_at 70000) mine retry ≡ [])
        × Answer
            (host_at 70000)
            waiting
            retry
            mine
            (handle_request_message (host_at 70000) retry true waiting).1.outbox)
handle_request_message-Answer_example =
    handle_request_message-Answer (host_at 70000) retry true waiting mine
      (unfold active_guards get_index get_date sort in refl)

abbrev config : SignerConfig
config = record {
  guards_pk = guard_keys;
  message_valid_duration = none;
  timeout_seconds = none;
  callback_url = "http://guard";
  detection = detection_of [];
  turn_duration_seconds = none;
  turn_no_work_seconds = none;
  shares = "sa" ∷ "sb" ∷ [];
  threshold_ttl = none;
  response_delay = none;
  sign_per_round_limit = none;
  sign_cache_ttl_seconds = none;
}

abbrev first : Tss
first = create "ecdsa" config

abbrev m_sign : ℕ → Sign
m_sign callback = new_sign (host_at 10000) "m" callback "cc" none

sign-twice_example :
    (sign (host_at 10000) "m" 5 "cc" none first ≡ push_sign (host_at 10000) (m_sign 5) first)
    × (sign (host_at 10000) "m" 6 "cc" none first ≡ push_sign (host_at 10000) (m_sign 6) first)
    × ((push_sign (host_at 10000) (m_sign 6) (push_sign (host_at 10000) (m_sign 5) first).1).1.signs
        ≡ m_sign 5 ∷ m_sign 6 ∷ [])
unfolding create
sign-twice_example =
    sign-twice (host_at 10000) "m" 5 6 "cc" "cc" none none first (unfold get_sign in refl)
      (unfold lookup in refl) (unfold get_pending_sign in refl)
