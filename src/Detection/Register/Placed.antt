-- ===== src/Detection/Register/Placed.antt =====
-- The places of the entries in `register`.
use sign_protocols.Prelude.{
  ℕ, String, refl, ◌∙◌, Option, none, some, [], ◌∷◌, not, ◌||◌, arith, get_elem?, index_of,
  Bool-cases, Option-cases, inl, inr, ◌==◌,
}
use sign_protocols.Exec.{Result-value}
use sign_protocols.Exec.Invariance.{Keeps, Keeps-bind}
use sign_protocols.Communicator.{get_date}
use sign_protocols.Detection.State.{GuardInfo, Host, register_message}
use sign_protocols.Detection.Nonces.{new_nonce, push_nonce}
use sign_protocols.Detection.Active.{is_active}
use sign_protocols.Detection.Register.{
  on_error, push_callback, request_registration, register_at, register_found, register,
}
use sign_protocols.Detection.Places.{IsAligned, map_place-modify, send-IsAligned, Keeps-clear_nonce}

module _ {C : Type 0} (host : Host) where
  request_registration-IsAligned :
      (peer : String) (i : ℕ) (callback : C)
      → Keeps (IsAligned {C = C}) (request_registration host peer i callback)
  unfolding request_registration
  request_registration-IsAligned peer i callback = record {
    kept = λ s a.
        let nonce = new_nonce host s in
        (Keeps-bind (send-IsAligned host register_message (some nonce.bytes) none (peer ∷ []))
            λ _. Keeps-clear_nonce host).kept
          _
          (map_place-modify (λ info. push_nonce nonce (push_callback callback info)) s.guards_info i
              (λ x. refl)
            ∙ a);
  }

  register_at-IsAligned :
      (peer : String) (i : ℕ) (callback : C) (info : Option (GuardInfo C))
      → Keeps (IsAligned {C = C}) (register_at host peer i callback info)
  unfolding register_at on_error
  register_at-IsAligned peer i callback none = record { kept = λ s a. a }
  register_at-IsAligned peer i callback (some info) = record {
    kept = λ s a.
        let b = (request_registration-IsAligned peer i callback).kept s a in
        elim (Bool-cases
          (info.peer_id == "" || not (is_active (get_date host.now) s.active_timeout info))) [
            | inl e ↦ elim (Result-value (request_registration host peer i callback s).0) [
              | inl (u, f) ↦ ground (arith, b)
              | inr (x, f) ↦ ground (arith, b)
            ]
            | inr e ↦ elim (Bool-cases (info.peer_id == peer)) [
              | inl f ↦ ground (arith, a)
              | inr f ↦ ground (arith, a)
            ]
          ];
  }

  pub register-IsAligned :
      (peer pk : String) (callback : C) → Keeps (IsAligned {C = C}) (register host peer pk callback)
  unfolding register register_found
  register-IsAligned peer pk callback = record {
    kept = λ s a. elim (Option-cases (index_of pk s.guard_pks)) [
      | inl e ↦ ground (arith, a)
      | inr (i, e) ↦
          ground
            (arith, (register_at-IsAligned peer i callback (get_elem? s.guards_info i)).kept s a)
    ];
  }
