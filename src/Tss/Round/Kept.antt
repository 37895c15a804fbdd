-- ===== src/Tss/Round/Kept.antt =====
-- The messages in the queue in `update`.
use sign_protocols.Prelude.{
  ℕ, zero, suc, ◌/◌, ◌≡◌, refl, sym, List, [], ◌∷◌, arith, eqb, ltb, length, take, is_empty,
  Bool-cases, Option-cases, inl, inr,
}
use mathlib.Core.Path.{subst}
use sign_protocols.Exec.{modifies}
use sign_protocols.Exec.Invariance.{Keeps, Keeps-bind, Keeps-for_each}
use sign_protocols.Communicator.{get_date, get_index}
use sign_protocols.Detection.State.{ActiveGuard}
use sign_protocols.Detection.Active.{active_guards}
use sign_protocols.Tss.State.{Sign, meets, sign_payload_json, request, request_message}
use sign_protocols.Tss.Turns.{get_guard_turn, is_turn, is_waiting, cleanup}
use sign_protocols.Tss.Approved.{SignerHost}
use sign_protocols.Tss.Round.{
  enumerate, modify_at, update_threshold, with_request, request_sign, request_signs,
  request_if_enough, my_turn, update_as, update,
}
use sign_protocols.Tss.Requests.Kept.{send-IsDistinct}
use sign_protocols.Prelude.{AllDiffer}
use sign_protocols.Tss.Distinct.{
  messages, IsDistinct, keep_if-AllDiffer, on_comm-IsDistinct, on_detection-IsDistinct,
}

messages-modify_at :
    (i : ℕ) (f : Sign → Sign) (signs : List Sign)
    → ((sign : Sign) → (f sign).msg ≡ sign.msg)
    → messages (modify_at i f signs) ≡ messages signs
unfolding modify_at
messages-modify_at zero f [] k = refl
messages-modify_at (suc i) f [] k = refl
messages-modify_at zero f (x ∷ signs) k = ground (arith, k x)
messages-modify_at (suc i) f (x ∷ signs) k = ground (arith, messages-modify_at i f signs k)

module _ (host : SignerHost) where
  cleanup-IsDistinct : Keeps IsDistinct (modifies (cleanup host.node.now))
  unfolding cleanup
  cleanup-IsDistinct = record {
    kept = λ s d. keep_if-AllDiffer (is_waiting (get_date host.node.now) s.timeout) s.signs d;
  }

  update_threshold-IsDistinct : Keeps IsDistinct (modifies (update_threshold host))
  unfolding update_threshold
  update_threshold-IsDistinct = record {
    kept = λ s d. elim (Bool-cases (ltb s.threshold.expiry host.node.now)) [
      | inl e ↦ elim (Option-cases host.api.threshold) [
        | inl f ↦ ground (arith, d)
        | inr (t, f) ↦ ground (arith, d)
      ]
      | inr e ↦ ground (arith, d)
    ];
  }

  asked_lem :
      (guards : List ActiveGuard) (timestamp position : ℕ) (index : ℕ)
      → Keeps IsDistinct (
          modifies λ s. record s {
            signs =
                modify_at position (with_request host s.guard_pks guards index timestamp) s.signs;
          })
  unfolding with_request
  asked_lem guards timestamp position index = record {
    kept = λ s d.
        subst AllDiffer
          (sym (
            messages-modify_at position (with_request host s.guard_pks guards index timestamp)
              s.signs (λ sign. refl)))
          d;
  }

  request_sign-IsDistinct :
      (guards : List ActiveGuard) (timestamp : ℕ) (item : ℕ × Sign)
      → Keeps IsDistinct (request_sign host guards timestamp item)
  unfolding request_sign
  request_sign-IsDistinct guards timestamp (position, sign) = record {
    kept = λ s d. elim (Bool-cases sign.posted) [
      | inl e ↦ ground (arith, d)
      | inr e ↦
          let k =
            (Keeps-bind
                (send-IsDistinct host request_message (request sign.msg guards) [] timestamp)
                λ _.
                  Keeps-bind (on_comm-IsDistinct (get_index host.enc))
                    λ index. asked_lem guards timestamp position index).kept
              s d in
          ground (arith, k)
    ];
  }

  request_signs-IsDistinct :
      (guards : List ActiveGuard) → Keeps IsDistinct (request_signs host guards)
  unfolding request_signs
  request_signs-IsDistinct guards = record {
    kept = λ s d.
        let timestamp : ℕ = get_date host.node.now in
        elim (Bool-cases (eqb (timestamp / s.turn_duration) s.last_update_round)) [
          | inl e ↦ ground (arith, d)
          | inr e ↦
              let k =
                (Keeps-for_each (enumerate 0 (take s.sign_per_round_limit s.signs))
                    (request_sign-IsDistinct guards timestamp)).kept
                  (record s { last_update_round = timestamp / s.turn_duration }) d in
              ground (arith, k)
        ];
  }

  request_if_enough-IsDistinct :
      (guards : List ActiveGuard) → Keeps IsDistinct (request_if_enough host guards)
  unfolding request_if_enough
  request_if_enough-IsDistinct guards = record {
    kept = λ s d. elim (Bool-cases (meets (length guards) s.threshold.value)) [
      | inl e ↦ let k = (request_signs-IsDistinct guards).kept s d in ground (arith, k)
      | inr e ↦ ground (arith, d)
    ];
  }

  my_turn-IsDistinct : Keeps IsDistinct (my_turn host)
  unfolding my_turn
  my_turn-IsDistinct = Keeps-bind update_threshold-IsDistinct λ _.
      Keeps-bind (on_detection-IsDistinct (active_guards host.node)) request_if_enough-IsDistinct

  update_as-IsDistinct : (i : ℕ) → Keeps IsDistinct (update_as host i)
  unfolding update_as
  update_as-IsDistinct i = record {
    kept = λ s d. elim (Bool-cases (is_turn (get_guard_turn host.node.now s) i)) [
      | inr e ↦ ground (arith, d)
      | inl e ↦ elim (Bool-cases (is_empty s.signs)) [
        | inl f ↦ ground (arith, d)
        | inr f ↦ let k = my_turn-IsDistinct.kept s d in ground (arith, k)
      ]
    ];
  }

  pub update-IsDistinct : Keeps IsDistinct (update host)
  unfolding update
  update-IsDistinct =
      Keeps-bind cleanup-IsDistinct
        λ _. Keeps-bind (on_comm-IsDistinct (get_index host.enc)) update_as-IsDistinct
