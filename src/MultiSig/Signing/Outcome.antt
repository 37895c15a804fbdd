-- ===== src/MultiSig/Signing/Outcome.antt =====
-- What becomes of a queued transaction when a signed one comes.
use sign_protocols.Prelude.{
  sym, append-nil, String, ◌≡◌, refl, ap, none, some, List, [], ◌∷◌, ◌++◌, Bool, true, false, arith,
  inl, inr, Option-cases, eq_refl,
}
use sign_protocols.Prelude.Maps.{lookup, erase, lookup-erase}
use sign_protocols.Json.{◌⋯◌}
use sign_protocols.Exec.{ok}
use sign_protocols.MultiSig.Ergo.{ErgoLib}
use sign_protocols.MultiSig.State.{TxQueued, MultiSig, MultiSigHost, Settled, resolved, rejected}
use sign_protocols.MultiSig.Hints.{verify_input}
use sign_protocols.MultiSig.Queue.{get_queued_transaction}
use sign_protocols.MultiSig.Signing.{settle_signed, take_signed_tx, handle_signed_tx}

module _ {E : ErgoLib} (host : MultiSigHost E) where
  -- the call of the promise of an entry, when there is one
  abbrev pub outcome : Bool → TxQueued E → E.Transaction → List (Settled E)
  outcome true t tx = elim t.resolve [ none ↦ [] | some promise ↦ resolved promise tx ∷ [] ]
  outcome false t tx = elim t.reject [
    | none ↦ []
    | some promise ↦
        rejected promise ("Signed transaction " ⋯ E.transaction_id tx ⋯ " is invalid") ∷ []
  ]

  settled-settle_signed :
      (valid : Bool) (t : TxQueued E) (tx : E.Transaction) (s : MultiSig E)
      → settle_signed host valid t tx s ≡ record s { settled = s.settled ++ outcome valid t tx }
  unfolding settle_signed
  settled-settle_signed true t tx s = elim (Option-cases t.resolve) [
    | inl e ↦ rw e (ap (λ l. record s { settled = l }) (sym (append-nil s.settled)))
    | inr (p, e) ↦ rw e refl
  ]
  settled-settle_signed false t tx s = elim (Option-cases t.reject) [
    | inl e ↦ rw e (ap (λ l. record s { settled = l }) (sym (append-nil s.settled)))
    | inr (p, e) ↦ rw e refl
  ]

  -- A signed transaction ends the signing of the one that is queued under its id, whoever sent it
  -- and whether it is valid or not: for a free semaphore, bytes that parse, an id that is queued, and a check of the
  -- inputs that answers, the entry is removed and the other entries stay, its promise is resolved
  -- when the inputs verify and rejected when they do not, and the semaphore is free.
  pub handle_signed_tx-outcome :
      (tx_bytes : String) (tx : E.Transaction) (t : TxQueued E) (valid : Bool) (s : MultiSig E)
      → s.locked ≡ false
      → E.sigma_parse_bytes tx_bytes ≡ ok tx
      → lookup (E.transaction_id tx) s.transactions ≡ some t
      → verify_input E host.state_context tx t.boxes ≡ ok valid
      → ((handle_signed_tx host tx_bytes s).1.transactions
          ≡ erase (E.transaction_id tx) s.transactions)
        × (lookup (E.transaction_id tx) (handle_signed_tx host tx_bytes s).1.transactions ≡ none)
        × ((handle_signed_tx host tx_bytes s).1.settled ≡ s.settled ++ outcome valid t tx)
        × ((handle_signed_tx host tx_bytes s).1.locked ≡ false)
  unfolding handle_signed_tx take_signed_tx get_queued_transaction
  handle_signed_tx-outcome tx_bytes tx t valid s free p q v =
      let s1 = record s { locked = true } in
      rw (p, free, q, v, settled-settle_signed valid t tx s1)
        (
          refl,
          ground (
            arith,
            lookup-erase (E.transaction_id tx) (E.transaction_id tx) s.transactions,
            eq_refl (E.transaction_id tx),
          ),
          refl,
          refl,
        )
