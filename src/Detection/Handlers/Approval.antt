-- ===== src/Detection/Handlers/Approval.antt =====
-- The handler of approvals: what it takes and what it leaves.
use sign_protocols.Prelude.{
  ℕ, String, ◌≡◌, refl, ap, sym, ◌∙◌, ◌⊎◌, Option, none, some, [], ◌++◌, true, any, arith,
  get_elem?, get_elem?-map, get_elem?-modify_self, modify, Bool-cases, Option-cases, inl, inr,
}
use sign_protocols.Communicator.{get_date}
use sign_protocols.Detection.State.{
  GuardInfo, GuardDetection, DetectionPayload, Host, detection_payload_json,
}
use sign_protocols.Detection.Nonces.{clear_nonce, clear_info, splice_stale}
use sign_protocols.Detection.Nonces.Freshness.{splice_stale-nil}
use sign_protocols.Detection.Handlers.{
  is_nonce, approved, fire_all, accept_approval, answer, handle_approve_message,
}

-- an entry whose guard was heard of under a peer id at a time, with nothing left to wait for
abbrev pub heard_of : {C : Type 0} → String → ℕ → GuardInfo C → GuardInfo C
heard_of peer_id date info = record {
  peer_id = peer_id;
  nonce = [];
  last_update = date;
  public_key = info.public_key;
  callback = [];
  index = info.index;
}

module _ {C : Type 0} (host : Host) where
  -- The sender's entry holds the returned nonce after the timed-out ones were cleared.
  pub record IsAnswered (payload : DetectionPayload) (i : ℕ) (s : GuardDetection C) : Type 0 where
    pub info : GuardInfo C
    pub entry : get_elem? (clear_nonce host s).guards_info i ≡ some info
    pub returned : any (is_nonce payload.received_nonce) info.nonce ≡ true

  guards_info-answer :
      (nonce : Option String) (sender : String) (s : GuardDetection C)
      → ((answer host nonce sender s).1.guards_info ≡ s.guards_info)
        × ((answer host nonce sender s).1.fired ≡ s.fired)
  unfolding answer
  guards_info-answer none sender s = (refl, refl)
  guards_info-answer (some n) sender s = (ground arith, ground arith)

  fired-clear_nonce : (s : GuardDetection C) → (clear_nonce host s).fired ≡ s.fired
  unfolding clear_nonce
  fired-clear_nonce s = refl

  pub handle_approve_message-takes :
      (payload : DetectionPayload) (sender : String) (i : ℕ) (s : GuardDetection C)
      → let s' = (handle_approve_message host payload sender i s).1 in
        ((a : IsAnswered payload i s) × (get_elem? s'.guards_info i
            ≡ some (heard_of sender (get_date host.now) a.info))
          × (s'.guards_info
              ≡ modify (clear_nonce host s).guards_info i (heard_of sender (get_date host.now)))
          × (s'.fired ≡ s.fired ++ fire_all a.info.callback))
        ⊎ ((¬ IsAnswered payload i s) × (s' ≡ clear_nonce host s))
  unfolding handle_approve_message
  handle_approve_message-takes payload sender i s =
      elim (Option-cases (get_elem? (clear_nonce host s).guards_info i)) [
        | inl e ↦ inr (λ a. ground (arith, a.entry), ground arith)
        | inr (info, e) ↦ elim (Bool-cases (any (is_nonce payload.received_nonce) info.nonce)) [
          | inr b ↦ inr (λ a. ground (arith, a.entry, a.returned), ground arith)
          | inl b ↦
              let cleared : GuardDetection C = clear_nonce host s in
              let taken : GuardDetection C = accept_approval host sender i info cleared in
              let (g, f) = guards_info-answer payload.nonce sender taken in
              let st : (handle_approve_message host payload sender i s).1
                  ≡ (answer host payload.nonce sender taken).1 =
                ground arith in
              inl (
                record { info = info; entry = e; returned = b },
                ap (λ t. get_elem? t.guards_info i) st
                    ∙ ap (λ l. get_elem? l i) g
                    ∙ get_elem?-modify_self cleared.guards_info i change info e,
                ap (λ t. t.guards_info) st ∙ g,
                ap (λ t. t.fired) st
                    ∙ f
                    ∙ ap (λ l. l ++ fire_all info.callback) (fired-clear_nonce s),
              )
        ]
      ]
    where
      change : GuardInfo C → GuardInfo C
      change = approved sender (get_date host.now)

module _ {C : Type 0} (host later : Host) where
  clear_nonce-entry :
      (i : ℕ) (s : GuardDetection C) (info : GuardInfo C)
      → get_elem? s.guards_info i ≡ some info
      → info.nonce ≡ []
      → (next : GuardInfo C) × (get_elem? (clear_nonce later s).guards_info i ≡ some next)
        × (next.nonce ≡ [])
  unfolding clear_nonce
  clear_nonce-entry i s info h e =
      let date : ℕ = get_date later.now in
      let duration : ℕ = s.message_valid_duration in
      (
        clear_info date duration info,
        get_elem?-map (clear_info date duration) s.guards_info i info h,
        ap (splice_stale date duration) e ∙ splice_stale-nil date duration,
      )

  unanswered :
      (text : Option String) (next info : GuardInfo C)
      → some next ≡ some info
      → next.nonce ≡ []
      → ¬ (any (is_nonce text) info.nonce ≡ true)
  unanswered text next info same empty returned = ground (arith, same, empty, returned)

  -- A nonce serves once: in the state that a taken approval of a guard leaves, before any other
  -- method is called, no approval of that guard is taken, whenever it comes and whatever it
  -- returns.
  pub handle_approve_message-once :
      (payload payload' : DetectionPayload) (sender sender' : String) (i : ℕ) (s : GuardDetection C)
      → IsAnswered host payload i s
      → let s' = (handle_approve_message host payload sender i s).1 in
        (handle_approve_message later payload' sender' i s').1 ≡ clear_nonce later s'
  handle_approve_message-once payload payload' sender sender' i s a =
      elim (handle_approve_message-takes host payload sender i s) [
        | inr (refused, st) ↦ absurd (refused a)
        | inl (b, entry, others, calls) ↦
            let s' : GuardDetection C = (handle_approve_message host payload sender i s).1 in
            let (next, at, empty) =
              clear_nonce-entry i s' (approved sender (get_date host.now) b.info) entry refl in
            elim (handle_approve_message-takes later payload' sender' i s') [
              | inr (refused, st) ↦ st
              | inl (c, entry', others', calls') ↦
                  absurd (unanswered _ next c.info (sym at ∙ c.entry) empty c.returned)
            ]
      ]
