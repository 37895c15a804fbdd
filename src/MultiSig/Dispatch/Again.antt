-- ===== src/MultiSig/Dispatch/Again.antt =====
-- What a second call of `handleMyTurnForTx` in a turn does.
use sign_protocols.Prelude.{ℕ, String, ◌≡◌, refl, some, [], false, arith, eq_refl, not, ◌&&◌}
use sign_protocols.Prelude.Maps.{lookup, insert, lookup-insert}
use sign_protocols.Exec.{ok}
use sign_protocols.Communicator.{get_index}
use sign_protocols.Communicator.Index.{outbox-get_index}
use sign_protocols.Tss.Turns.{is_turn}
use sign_protocols.MultiSig.Data.{multi_sig_payload_json}
use sign_protocols.MultiSig.Ergo.{ErgoLib}
use sign_protocols.MultiSig.State.{TxQueued, MultiSig, MultiSigHost}
use sign_protocols.MultiSig.Turns.{get_current_turn_ind}
use sign_protocols.MultiSig.Dispatch.{restarted, coordinate_in_turn, restart, handle_my_turn_for_tx}
use sign_protocols.MultiSig.Dispatch.Kept.{is_my_turn-again}

module _ {E : ErgoLib} (host : MultiSigHost E) where
  coordinate_in_turn-quiet :
      (tx_id : String) (t : TxQueued E) (my_ind : ℕ) (s : MultiSig E)
      → (get_index host.enc s.comm).0 ≡ ok my_ind
      → is_turn (get_current_turn_ind host s) my_ind && not (is_turn t.coordinator my_ind) ≡ false
      → coordinate_in_turn host tx_id t s
        ≡ (ok tt, record s { comm = (get_index host.enc s.comm).1 })
  unfolding coordinate_in_turn
  coordinate_in_turn-quiet tx_id t my_ind s i n = rw (i, is_my_turn-again host s my_ind i, n) refl

  -- A guard that coordinates a queued transaction already, or whose turn it is not, loses by
  -- `handleMyTurnForTx` all that was collected for it, its own commitment too, and asks nobody for
  -- anything: if its index is found, nothing is sent, and the entry is left without commitments and
  -- signatures and with an empty simulated bag, all else in it as it was, the secret and the
  -- coordinator too.
  pub handle_my_turn_for_tx-again :
      (tx_id : String) (t : TxQueued E) (my_ind : ℕ) (s : MultiSig E)
      → lookup tx_id s.transactions ≡ some t
      → (get_index host.enc s.comm).0 ≡ ok my_ind
      → is_turn (get_current_turn_ind host s) my_ind && not (is_turn t.coordinator my_ind) ≡ false
      → ((handle_my_turn_for_tx host tx_id s).1.outbox ≡ s.outbox)
        × (lookup tx_id (handle_my_turn_for_tx host tx_id s).1.transactions
            ≡ some record {
              tx = t.tx;
              boxes = t.boxes;
              data_boxes = t.data_boxes;
              secret = t.secret;
              simulated_bag = some E.empty_bag;
              signs = [];
              commitments = [];
              commitment_signs = [];
              resolve = t.resolve;
              reject = t.reject;
              create_time = t.create_time;
              required_signer = t.required_signer;
              coordinator = t.coordinator;
            })
  unfolding handle_my_turn_for_tx restart get_current_turn_ind
  handle_my_turn_for_tx-again tx_id t my_ind s h i n =
      let s1 = record s { transactions = insert tx_id (restarted host t) s.transactions } in
      rw (h, coordinate_in_turn-quiet tx_id (restarted host t) my_ind s1 i n)
        (
          outbox-get_index host.enc s.comm,
          ground
              (arith, lookup-insert tx_id tx_id (restarted host t) s.transactions, eq_refl tx_id),
        )
