-- ===== src/Tests/Multi.antt =====
-- The hints, the commitments and the clearing of the multi-signature handler, tried.
use sign_protocols.Prelude.{
  ℕ, ◌<◌, String, ◌≡◌, ◌↔◌, ◌⊎◌, refl, none, some, [], ◌∷◌, ◌++◌, true, false, arith,
}
use sign_protocols.Prelude.Maps.{lookup, insert}
use sign_protocols.Exec.{ok}
use sign_protocols.Communicator.{get_index}
use sign_protocols.Tss.Turns.{turn_of}
use sign_protocols.MultiSig.State.{TxQueued}
use sign_protocols.MultiSig.Hints.{
  add_hints, published_commitments_to_hint_bag, extract_hints, convert_to_hint_bag,
  published_proof_to_hint_bag, to_reduced_published_commitments, hint_bag_to_published_proof,
  verify_input, add_boxes,
}
use sign_protocols.MultiSig.Hints.Published.{commitment_json, proof_json, published-round_trip}
use sign_protocols.MultiSig.Hints.Verified.{verify_input_iff}
use sign_protocols.MultiSig.Turns.{key_at, get_current_turn_ind, is_my_turn}
use sign_protocols.MultiSig.Queue.{cleanup, get_prover, get_pk}
use sign_protocols.MultiSig.Queue.Cleaning.{unexpired, rejections, cleanup-unexpired}
use sign_protocols.MultiSig.Commit.{handle_commitment}
use sign_protocols.MultiSig.Commit.Initiated.{Initiated}
use sign_protocols.MultiSig.Commit.Initiation.{Initiation, handle_commitment-Initiation}
use sign_protocols.MultiSig.Commit.Starting.{handle_commitment-starts}
use sign_protocols.MultiSig.Commit.Prepared.{Succeeds}
use sign_protocols.Tests.Toy.{no_bag, toy, host, single, single_proof, queued, waiting}

published-round_trip_example :
    (to_reduced_published_commitments toy
        (record {
          secret_hints = ("0", []) ∷ [];
          public_hints =
              (
                "0",
                record {
                  hint = "cmtReal";
                  pubkey = record { op = "205"; h = some "A" };
                  kind = "dlog";
                  a = "a";
                  secret = none;
                  position = "0-0";
                }
                    ∷ [],
              )
              ∷ [];
        })
        "A"
      ≡ single)
    × (hint_bag_to_published_proof toy
          (record {
            secret_hints =
                (
                  "0",
                  record {
                    hint = "proofReal";
                    pubkey = record { op = "205"; h = some "A" };
                    challenge = "p";
                    proof = "p";
                    position = "0-0";
                  }
                      ∷ [],
                )
                ∷ [];
            public_hints = ("0", []) ∷ [];
          })
          "A"
        ≡ single_proof)
published-round_trip_example =
    published-round_trip toy single single_proof "A" "cmtReal" "proofReal"
      (commitment_json single "A" "cmtReal") (proof_json single_proof "A" "proofReal") _ _
      (λ bag bag' h. ground arith) refl refl (unfold convert_to_hint_bag in refl)
      (unfold published_proof_to_hint_bag in refl)

verify_input_iff_example : (verify_input toy (ok tt) "tx" ("box" ∷ []) ≡ ok true) ↔ (
    (i : ℕ)
    → i < 1
    → toy.verify_tx_input_proof i tt "tx" (add_boxes toy ("box" ∷ []) []) [] ≡ ok true)
verify_input_iff_example = verify_input_iff toy tt "tx" ("box" ∷ [])

cleanup-unexpired_example :
    ((id : String)
      → lookup id (cleanup 20000 waiting).transactions
        ≡ unexpired 20000 10 (lookup id waiting.transactions))
    × ((cleanup 20000 waiting).settled ≡ [] ++ rejections 20000 10 waiting.transactions)
    × ((cleanup 20000 waiting).locked ≡ false)
cleanup-unexpired_example = cleanup-unexpired 20000 waiting (refl, tt)

handle_commitment-Initiation_example :
    ((handle_commitment (host 0) "tx" single "sign" 1 waiting).1.outbox ≡ [])
    ⊎ Initiation
        (host 0)
        waiting
        "tx"
        single
        "sign"
        1
        (handle_commitment (host 0) "tx" single "sign" 1 waiting).1
handle_commitment-Initiation_example =
    handle_commitment-Initiation (host 0) "tx" single "sign" 1 waiting

abbrev both_committed : TxQueued toy
both_committed = record (queued "tx") {
  commitments = insert "B" single (("A", single) ∷ []);
  commitment_signs = insert "B" "sign" [];
}

toy-Succeeds : Succeeds (host 0) waiting both_committed "tx" no_bag
toy-Succeeds = record {
  hints = no_bag;
  sim_hints = no_bag;
  simulated = record {
    copy = no_bag;
    signed_sim = "tx";
    collected =
        unfold published_commitments_to_hint_bag insert convert_to_hint_bag add_hints in refl;
    copied = refl;
    signed = refl;
    extracted = unfold extract_hints insert in refl;
  };
  my_pub = "A";
  own = unfold get_pk in refl;
  prover = "A" ∷ [];
  proves = unfold get_prover in refl;
  signed = "tx";
  signs = refl;
  my_hint = no_bag;
  extracts = unfold extract_hints in refl;
}

handle_commitment-starts_example :
    Initiated
      (host 0)
      waiting
      "tx"
      both_committed
      "tx"
      (handle_commitment (host 0) "tx" single "sign" 1 waiting).1
handle_commitment-starts_example =
    handle_commitment-starts (host 0) "tx" single "sign" 1 waiting "B" (queued "tx") "tx" no_bag 0
      refl refl (unfold is_my_turn get_index get_current_turn_ind turn_of in refl)
      (unfold get_index in refl) (unfold key_at in refl) (unfold lookup in refl) refl refl
      (ground arith) (unfold insert in ground arith) toy-Succeeds
