-- ===== src/Tss/Approvals/Kept.antt =====
-- The messages in the queue in `handleApproveMessage` and `handleStartMessage`.
use sign_protocols.Prelude.{
  ℕ, String, refl, Option, none, some, List, true, false, not, arith, any, length, Bool-cases,
  Option-cases, inl, inr, ◌==◌,
}
use sign_protocols.Exec.{modifies}
use sign_protocols.Exec.Invariance.{Keeps, Keeps-bind}
use sign_protocols.Communicator.{get_date, get_index}
use sign_protocols.Detection.State.{ActiveGuard}
use sign_protocols.Tss.State.{
  Sign, Request, SignApprovePayload, Tss, meets, sign_payload_json, start, start_message,
}
use sign_protocols.Tss.Turns.{get_guard_turn, is_turn, is_no_work_time}
use sign_protocols.Tss.Queue.{has_msg, get_sign, update_sign}
use sign_protocols.Tss.Approved.{SignerHost, get_approved_guards, sign_data, start_sign}
use sign_protocols.Tss.Approvals.{
  add_signature, others, announce, start_if_enough, count_approvals, approve_requested,
  approve_found, handle_approve_message, post_if_enough, check_start, start_found,
  handle_start_message,
}
use sign_protocols.Tss.Requests.Kept.{send-IsDistinct}
use sign_protocols.Tss.Distinct.{
  IsDistinct, keep_if-AllDiffer, update_sign-IsDistinct, on_comm-IsDistinct, Keeps-skip, Keeps-lift,
  Keeps-gets,
}

module _ (host : SignerHost) where
  pub start_sign-IsDistinct :
      (msg : String) (guards : List ActiveGuard) (s : Tss)
      → IsDistinct s
      → IsDistinct (start_sign host msg guards s)
  unfolding start_sign
  start_sign-IsDistinct msg guards s d = elim (Option-cases (get_sign msg false s)) [
    | inl e ↦ ground (arith, d)
    | inr (sign, e) ↦
        let k =
          update_sign-IsDistinct msg (λ sign. record sign { posted = true }) s (λ x. refl) d in
        elim (Option-cases (host.api.sign (sign_data (get_date host.node.now) s sign msg guards))) [
          | inl f ↦ ground (arith, k)
          | inr (code, f) ↦
              let g =
                keep_if-AllDiffer (λ item. not (has_msg sign.msg item))
                  (update_sign msg (λ sign. record sign { posted = true }) s).signs k in
              ground (arith, g)
        ]
  ]

  Keeps-start_sign :
      (msg : String) (guards : List ActiveGuard)
      → Keeps IsDistinct (modifies (start_sign host msg guards))
  Keeps-start_sign msg guards = record { kept = start_sign-IsDistinct msg guards }

  announce-IsDistinct :
      (sign : Sign) (req : Request) (guards : List ActiveGuard) (found : Option Sign)
      → Keeps IsDistinct (announce host sign req guards found)
  unfolding announce
  announce-IsDistinct sign req guards none = Keeps-skip
  announce-IsDistinct sign req guards (some item) =
      Keeps-bind
        (send-IsDistinct host start_message (start sign.msg sign.signs req.guards)
          (others host guards) req.timestamp)
        λ _. Keeps-start_sign sign.msg guards

  start_if_enough-IsDistinct :
      (sign : Sign) (req : Request) (guards : List ActiveGuard)
      → Keeps IsDistinct (start_if_enough host sign req guards)
  unfolding start_if_enough
  start_if_enough-IsDistinct sign req guards = record {
    kept = λ s d. elim (Bool-cases (meets (length guards) s.threshold.value)) [
      | inl e ↦
          let k = (announce-IsDistinct sign req guards (get_sign sign.msg false s)).kept s d in
          ground (arith, k)
      | inr e ↦ ground (arith, d)
    ];
  }

  count_approvals-IsDistinct :
      (sign : Sign) (req : Request) → Keeps IsDistinct (count_approvals host sign req)
  unfolding count_approvals
  count_approvals-IsDistinct sign req =
      Keeps-bind (on_comm-IsDistinct (get_index host.enc)) λ index.
        Keeps-bind (Keeps-gets (λ s. s.guard_pks)) λ pks.
          Keeps-bind
            (Keeps-lift (
              get_approved_guards host.enc pks req.timestamp
                (record { msg = sign.msg; guards = req.guards; init_guard_index = index })
                sign.signs req.guards))
            λ guards. start_if_enough-IsDistinct sign req guards

  approve_requested-IsDistinct :
      (i : ℕ) (signature : String) (sign : Sign) (req : Option Request)
      → Keeps IsDistinct (approve_requested host i signature sign req)
  unfolding approve_requested
  approve_requested-IsDistinct i signature sign none = Keeps-skip
  approve_requested-IsDistinct i signature sign (some req) = record {
    kept = λ s d. elim (Bool-cases (is_no_work_time host.node.now s)) [
      | inl e ↦ ground (arith, d)
      | inr e ↦
          let k =
            (count_approvals-IsDistinct (add_signature i signature sign) req).kept
              (update_sign sign.msg (add_signature i signature) s)
              (update_sign-IsDistinct sign.msg (add_signature i signature) s (λ x. refl) d) in
          ground (arith, k)
    ];
  }

  pub handle_approve_message-IsDistinct :
      (payload : SignApprovePayload) (sender : String) (i : ℕ) (signature : String)
      → Keeps IsDistinct (handle_approve_message host payload sender i signature)
  unfolding handle_approve_message approve_found
  handle_approve_message-IsDistinct payload sender i signature = record {
    kept = λ s d. elim (Option-cases (get_sign payload.msg false s)) [
      | inl e ↦ ground (arith, d)
      | inr (sign, e) ↦
          let k = (approve_requested-IsDistinct i signature sign sign.request).kept s d in
          ground (arith, k)
    ];
  }

  post_if_enough-IsDistinct :
      (msg : String) (guards : List ActiveGuard) → Keeps IsDistinct (post_if_enough host msg guards)
  unfolding post_if_enough
  post_if_enough-IsDistinct msg guards = record {
    kept = λ s d. elim (Bool-cases (meets (length guards) s.threshold.value)) [
      | inl e ↦ let k = start_sign-IsDistinct msg guards s d in ground (arith, k)
      | inr e ↦ ground (arith, d)
    ];
  }

  check_start-IsDistinct :
      (msg : String) (signs : List (Option String)) (guards : List ActiveGuard) (timestamp i : ℕ)
      → Keeps IsDistinct (check_start host msg signs guards timestamp i)
  unfolding check_start
  check_start-IsDistinct msg signs guards timestamp i =
      Keeps-bind (Keeps-gets (λ s. s.guard_pks)) λ pks.
        Keeps-bind
          (Keeps-lift (
            get_approved_guards host.enc pks timestamp
              (record { msg = msg; guards = guards; init_guard_index = i }) signs guards))
          λ approved. post_if_enough-IsDistinct msg approved

  pub handle_start_message-IsDistinct :
      (msg : String) (signs : List (Option String)) (guards : List ActiveGuard) (timestamp i : ℕ)
      (sender : String)
      → Keeps IsDistinct (handle_start_message host msg signs guards timestamp i sender)
  unfolding handle_start_message start_found
  handle_start_message-IsDistinct msg signs guards timestamp i sender = record {
    kept = λ s d. elim (Option-cases (get_sign msg false s)) [
      | inl e ↦ ground (arith, d)
      | inr (sign, e) ↦
          let k = (check_start-IsDistinct sign.msg signs guards timestamp i).kept s d in
          elim (Bool-cases (is_turn (get_guard_turn host.node.now s) i)) [
            | inr t ↦ ground (arith, d)
            | inl t ↦ elim (Bool-cases (any (λ g. g.public_key == host.enc.get_pk) guards)) [
              | inr v ↦ ground (arith, d)
              | inl v ↦ ground (arith, k)
            ]
          ]
    ];
  }
