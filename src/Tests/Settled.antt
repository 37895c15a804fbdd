-- ===== src/Tests/Settled.antt =====
-- The ends of a signing and the steps of the multi-signature handler, tried.
use sign_protocols.Prelude.{◌≡◌, ◌↔◌, refl, none, some, List, [], ◌∷◌, ◌++◌, true, false, All}
use sign_protocols.Prelude.Maps.{lookup, insert, erase}
use sign_protocols.Exec.{ok}
use sign_protocols.Communicator.{CommunicationMessage, get_index, handle_message}
use sign_protocols.Detection.Active.{active_guards, sort}
use sign_protocols.Tss.Turns.{turn_of}
use sign_protocols.MultiSig.Data.{
  InitiateSignPayload, MultiSigPayload, signed_tx, signed_tx_message,
}
use sign_protocols.MultiSig.State.{TxQueued, MultiSig, Settled, create}
use sign_protocols.MultiSig.Hints.{to_reduced_published_commitments, verify_input}
use sign_protocols.MultiSig.Since.{rest_from, IsSound, IsBacked, IsFrom}
use sign_protocols.MultiSig.Turns.{
  key_at, get_current_turn_ind, get_current_turn_id, is_my_turn, peers_must_be_initialized,
}
use sign_protocols.MultiSig.Queue.{sign, cleanup, get_prover, get_pk}
use sign_protocols.MultiSig.Commit.Signers.{IsListed, keys_at-inds_of}
use sign_protocols.MultiSig.Signing.{initiate_sign, handle_signed_tx, keys_at}
use sign_protocols.MultiSig.Signing.Outcome.{outcome, handle_signed_tx-outcome}
use sign_protocols.MultiSig.Forever.{stays, runs, initiate_sign-for_ever}
use sign_protocols.MultiSig.Dispatch.{receive, handle_my_turn_for_tx}
use sign_protocols.MultiSig.Dispatch.Again.{handle_my_turn_for_tx-again}
use sign_protocols.MultiSig.Reachable.{
  Reachable, created, after, signs, cleans, receive-IsBacked, receive-IsFrom, Reachable-IsSound,
}
use sign_protocols.Tests.Data.{guard_keys}
use sign_protocols.Tests.Toy.{no_bag, toy, host, queued, no_guards, with_queue, waiting}

keys_at-inds_of_example :
    (keys_at guard_keys (some 1 ∷ some 0 ∷ []) ≡ ok ("B" ∷ "A" ∷ []))
    ↔ All (IsListed guard_keys) ("B" ∷ "A" ∷ [])
keys_at-inds_of_example = keys_at-inds_of guard_keys ("B" ∷ "A" ∷ [])

handle_signed_tx-outcome_example :
    let s' = (handle_signed_tx (host 0) "bad" (with_queue (("bad", queued "bad") ∷ []))).1 in
    (s'.transactions ≡ erase "bad" (("bad", queued "bad") ∷ []))
    × (lookup "bad" s'.transactions ≡ none)
    × (s'.settled ≡ [] ++ outcome (host 0) false (queued "bad") "bad")
    × (s'.locked ≡ false)
handle_signed_tx-outcome_example =
    handle_signed_tx-outcome (host 0) "bad" "bad" (queued "bad") false
      (with_queue (("bad", queued "bad") ∷ [])) refl refl (unfold lookup in refl)
      (unfold verify_input in refl)

abbrev bad_index : InitiateSignPayload
bad_index = record {
  tx_id = "tx";
  committed_inds = some 9 ∷ [];
  cmts = [];
  simulated = [];
  simulated_proofs = [];
}

abbrev taken : MultiSig toy
taken = (initiate_sign (host 180000) "peer-b" bad_index 1 waiting).1

abbrev cleaned : MultiSig toy
cleaned = cleanup 900000 taken

initiate_sign-for_ever_example : (cleaned.locked ≡ true) × (cleaned.settled ≡ [])
initiate_sign-for_ever_example =
    initiate_sign-for_ever (host 180000) "peer-b" bad_index 1 (queued "tx") "tx" no_bag
      "Cannot read properties of undefined" waiting cleaned refl
      (unfold get_current_turn_ind turn_of in refl) (unfold lookup in refl) refl refl
      (unfold keys_at key_at in refl) (runs taken cleaned stays (cleans 900000))

handle_my_turn_for_tx-again_example :
    ((handle_my_turn_for_tx (host 0) "tx" waiting).1.outbox ≡ [])
    × (lookup "tx" (handle_my_turn_for_tx (host 0) "tx" waiting).1.transactions
        ≡ some (record (queued "tx") {
          simulated_bag = some toy.empty_bag;
          commitments = [];
          commitment_signs = [];
          signs = [];
        }))
handle_my_turn_for_tx-again_example =
    handle_my_turn_for_tx-again (host 0) "tx" (queued "tx") 0 waiting (unfold lookup in refl)
      (unfold get_index in refl) (unfold get_current_turn_ind turn_of in refl)

abbrev idle : MultiSig toy
idle = create "A" 10 no_guards guard_keys

abbrev signed_up : MultiSig toy
signed_up = (sign (host 0) 7 "tx" 2 ("box" ∷ []) none idle).1

signed_up-Reachable : Reachable signed_up
signed_up-Reachable =
    after idle signed_up (created "A" 10 no_guards guard_keys)
      (signs (host 0) 7 "tx" 2 ("box" ∷ []) none)

Reachable-IsSound_example : IsSound signed_up
Reachable-IsSound_example = Reachable-IsSound signed_up signed_up-Reachable

abbrev signed_tx_msg : CommunicationMessage MultiSigPayload
signed_tx_msg = record {
  kind = signed_tx_message;
  sign = "B";
  timestamp = 1;
  public_key = "B";
  payload = signed_tx "tx";
  index = 1;
}

receive-IsBacked_example :
    (new : List (Settled toy)) × ((receive
        (host 1000)
        (some signed_tx_msg)
        "peer-b"
        signed_up).1.settled
      ≡ signed_up.settled ++ new)
    × All (IsBacked (ok tt) (rest_from signed_up)) new
receive-IsBacked_example =
    receive-IsBacked (host 1000) signed_up (some signed_tx_msg) "peer-b"
      (Reachable-IsSound signed_up signed_up-Reachable)

abbrev other_message : CommunicationMessage MultiSigPayload
other_message = record signed_tx_msg { payload = signed_tx "other" }

abbrev entry : TxQueued toy
entry = record (queued "tx") { create_time = 0; commitments = ("A", []) ∷ [] }

receive-IsFrom_example : IsFrom (ok tt) (rest_from signed_up) "tx" entry
receive-IsFrom_example =
    receive-IsFrom (host 1000) signed_up (some other_message) "peer-b" "tx" entry
      (Reachable-IsSound signed_up signed_up-Reachable)
      (unfold receive sign create lookup handle_message peers_must_be_initialized
          get_current_turn_id active_guards get_index sort insert get_prover get_pk is_my_turn
          handle_signed_tx erase to_reduced_published_commitments in
        refl)
