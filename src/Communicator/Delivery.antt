-- ===== src/Communicator/Delivery.antt =====
-- From one guard's `sendMessage` to another guard's `handleMessage`.
use sign_protocols.Prelude.{
  ℕ, ◌+◌, ◌≤◌, String, ◌≡◌, ◌≢◌, sym, ap, ◌∙◌, some, Option, List, [], ◌∷◌, ◌++◌, arith, get_elem?,
  inl, inr,
}
use sign_protocols.Json.{ToJson}
use sign_protocols.Exec.{ok, Exec}
use sign_protocols.Encryption.{EncryptionHandler, SignsCorrectly}
use sign_protocols.Communicator.{
  CommunicationMessage, Communicator, or_default, get_date, change_pks, get_index, signed_message,
  send_message, handle_message,
}
use sign_protocols.Communicator.Index.{send_message-ok}
use sign_protocols.Communicator.Handling.{handle_message-delivers, handle_message-guards}

module _ {P S : Type 0} ⦃j : ToJson P⦄ (sender receiver : EncryptionHandler)
    (base : S → Communicator P)
    (process : String → P → String → ℕ → String → ℕ → Exec S (Unit {0})) where
  -- `sendMessage` from a guard that finds the index `i`, whether cached or not, submits one message,
  -- appended to the earlier ones. If its key stands at `i` in its list, which a cached index from
  -- before a change of the keys need not do, then a receiver that holds the same keys and reads it within its valid duration gives
  -- it to `processMessage`: same kind and payload, the sender's index and the message's time. The
  -- hypothesis on the keys is that a signature verifies under its signer's key.
  pub handle_message-send_message :
      (now later : ℕ) (kind : String) (payload : P) (peers : List String) (time : Option ℕ)
      (peer_id : String) (c : Communicator P) (s : S) (i : ℕ)
      → SignsCorrectly sender receiver
      → (get_index sender c).0 ≡ ok i
      → get_elem? c.guard_pks i ≡ some sender.get_pk
      → (base s).guard_pks ≡ c.guard_pks
      → get_date later ≤ or_default time (get_date now) + (base s).message_valid_duration
      → let msg = signed_message sender kind payload (or_default time (get_date now)) i in
        ((send_message sender now kind payload peers time c).0 ≡ ok tt)
        × ((send_message sender now kind payload peers time c).1.outbox
            ≡ c.outbox ++ record { message = msg; peers = peers } ∷ [])
        × (handle_message receiver base process later (some msg) peer_id s
            ≡ process kind payload msg.sign i peer_id msg.timestamp s)
  unfolding send_message signed_message
  handle_message-send_message now later kind payload peers time peer_id c s i good found at same
        valid =
      let (sent, _, outbox) = send_message-ok sender c now kind payload peers time i found in
      (
        sent,
        outbox,
        handle_message-delivers receiver base process later _ peer_id s (record {
          fresh = valid;
          keyed = ap (λ pks. get_elem? pks i) same ∙ at;
          signed = good _;
        }),
      )

  -- A guard that has sent before keeps its old index when the keys are replaced. If its key does
  -- not stand at that index in the new list, then what it sends is dropped by every receiver that
  -- holds the new list: the receiver's state does not change.
  pub change_pks_loses_messages :
      (now later : ℕ) (kind : String) (payload : P) (peers new_pks : List String) (time : Option ℕ)
      (peer_id : String) (c : Communicator P) (s : S) (i : ℕ)
      → c.index ≡ some i
      → get_elem? new_pks i ≢ some sender.get_pk
      → (base s).guard_pks ≡ new_pks
      → let msg = signed_message sender kind payload (or_default time (get_date now)) i in
        ((send_message sender now kind payload peers time (change_pks new_pks c)).1.outbox
          ≡ c.outbox ++ record { message = msg; peers = peers } ∷ [])
        × ((handle_message receiver base process later (some msg) peer_id s).1 ≡ s)
  unfolding send_message change_pks signed_message
  change_pks_loses_messages now later kind payload peers new_pks time peer_id c s i cached moved
        holds =
      (
        ground arith,
        elim (handle_message-guards receiver base process later msg peer_id s) [
          | inl (a, _) ↦ absurd (moved (ap (λ pks. get_elem? pks i) (sym holds) ∙ a.keyed))
          | inr (_, e) ↦ e
        ],
      )
    where
      msg : CommunicationMessage P
      msg = signed_message sender kind payload (or_default time (get_date now)) i
