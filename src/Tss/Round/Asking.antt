-- ===== src/Tss/Round/Asking.antt =====
-- What `update` asks for when it is this guard's turn.
use sign_protocols.Prelude.{
  ℕ, zero, suc, ◌+◌, ◌/◌, ◌≡◌, refl, ap, ◌∙◌, List, [], ◌∷◌, ◌++◌, true, false, arith, map, eqb,
  ltb, length, take, is_empty, Bool-cases, Option-cases, inl, inr,
}
use mathlib.Core.List.{append-nil}
use sign_protocols.Exec.{ok, Result-value}
use sign_protocols.Communicator.{Submission, get_date, get_index}
use sign_protocols.Communicator.Index.{outbox-get_index, get_index-again, guard_pks-get_index}
use sign_protocols.Detection.State.{
  ActiveGuard, GuardDetection, detection_payload_json, set_need_guard_threshold,
}
use sign_protocols.Detection.Active.{active_guards}
use sign_protocols.Tss.State.{Sign, SignPayload, Tss, Retry, meets, sign_payload_json}
use sign_protocols.Tss.Turns.{get_guard_turn, is_turn, cleanup}
use sign_protocols.Tss.Approved.{SignerHost}
use sign_protocols.Tss.Round.{
  update_threshold, request_signs, request_if_enough, my_turn, update_as, update,
}
use sign_protocols.Tss.Round.Requesting.{request_of, open_signs, for_each-asks}

-- the same answer whatever number of guards is needed
active_guards-set_need_guard_threshold :
    (host : SignerHost) (n : ℕ) (d : GuardDetection Retry) (guards : List ActiveGuard)
    → (active_guards host.node d).0 ≡ ok guards
    → (active_guards host.node (set_need_guard_threshold n d)).0 ≡ ok guards
unfolding active_guards set_need_guard_threshold
active_guards-set_need_guard_threshold host n d guards h =
    elim (Result-value (get_index host.node.enc d.comm).0) [
      | inl (i, e) ↦ ground (arith, h, e)
      | inr (x, e) ↦ ground (arith, h, e)
    ]

module _ (host : SignerHost) (guards : List ActiveGuard) (i : ℕ) where
  -- what there is to ask for in a round
  abbrev pub asks : Tss → List (Submission SignPayload)
  asks s =
      map (request_of host guards (get_date host.node.now) i)
        (open_signs (take s.sign_per_round_limit s.signs))

  request_if_enough-asks :
      (s : Tss)
      → (get_index host.enc s.comm).0 ≡ ok i
      → meets (length guards) s.threshold.value ≡ true
      → eqb (get_date host.node.now / s.turn_duration) s.last_update_round ≡ false
      → (request_if_enough host guards s).1.outbox ≡ s.outbox ++ asks s
  unfolding request_if_enough request_signs
  request_if_enough-asks s h enough round =
      let timestamp : ℕ = get_date host.node.now in
      let s' : Tss = record s { last_update_round = timestamp / s.turn_duration } in
      let k = for_each-asks host guards timestamp i 0 (take s.sign_per_round_limit s.signs) s' h in
      ground (arith, k)

  -- `updateThreshold` changes nothing that the round depends on but the threshold.
  update_threshold-keeps :
      (s : Tss)
      → ((update_threshold host s).comm ≡ s.comm)
        × (asks (update_threshold host s) ≡ asks s)
        × ((update_threshold host s).turn_duration ≡ s.turn_duration)
        × ((update_threshold host s).last_update_round ≡ s.last_update_round)
  unfolding update_threshold
  update_threshold-keeps s = elim (Bool-cases (ltb s.threshold.expiry host.node.now)) [
    | inr e ↦ (ground arith, ground arith, ground arith, ground arith)
    | inl e ↦ elim (Option-cases host.api.threshold) [
      | inl f ↦ (ground arith, ground arith, ground arith, ground arith)
      | inr (t, f) ↦ (ground arith, ground arith, ground arith, ground arith)
    ]
  ]

  listed-update_threshold :
      (s : Tss)
      → (active_guards host.node s.detection).0 ≡ ok guards
      → (active_guards host.node (update_threshold host s).detection).0 ≡ ok guards
  unfolding update_threshold
  listed-update_threshold s h = elim (Bool-cases (ltb s.threshold.expiry host.node.now)) [
    | inr e ↦ ground (arith, h)
    | inl e ↦ elim (Option-cases host.api.threshold) [
      | inl f ↦ ground (arith, h)
      | inr (t, f) ↦
          ground (arith, active_guards-set_need_guard_threshold host (t + 1) s.detection guards h)
    ]
  ]

  my_turn-asks :
      (s : Tss)
      → (get_index host.enc s.comm).0 ≡ ok i
      → (active_guards host.node s.detection).0 ≡ ok guards
      → meets (length guards) (update_threshold host s).threshold.value ≡ true
      → eqb (get_date host.node.now / s.turn_duration) s.last_update_round ≡ false
      → (my_turn host s).1.outbox ≡ s.outbox ++ asks s
  unfolding my_turn
  my_turn-asks s h listed enough round =
      let t : Tss = update_threshold host s in
      let (c, a, d, r) = update_threshold-keeps s in
      let l = listed-update_threshold s listed in
      let k =
        request_if_enough-asks (record t { detection = (active_guards host.node t.detection).1 })
          (ap (λ c. (get_index host.enc c).0) c ∙ h) enough (ground (arith, d, r)) in
      ground (arith, k, l, a, c)

  -- the state in which `update` looks whose turn it is
  cleaned : Tss → Tss
  cleaned s = record (cleanup host.node.now s) { comm = (get_index host.enc s.comm).1 }

  get_guard_turn-cleaned :
      (s : Tss) → get_guard_turn host.node.now (cleaned s) ≡ get_guard_turn host.node.now s
  unfolding get_guard_turn cleaned cleanup
  get_guard_turn-cleaned s = rw (guard_pks-get_index host.enc s.comm)

  threshold-cleaned :
      (s : Tss)
      → (update_threshold host (cleaned s)).threshold.value
        ≡ (update_threshold host s).threshold.value
  unfolding update_threshold cleaned cleanup
  threshold-cleaned s = elim (Bool-cases (ltb s.threshold.expiry host.node.now)) [
    | inr e ↦ ground arith
    | inl e ↦ elim (Option-cases host.api.threshold) [
      | inl f ↦ ground arith
      | inr (t, f) ↦ ground arith
    ]
  ]

  requests-empty :
      (n timestamp : ℕ) (signs : List Sign)
      → is_empty signs ≡ true
      → map (request_of host guards timestamp i) (open_signs (take n signs)) ≡ []
  requests-empty zero timestamp [] h = refl
  requests-empty (suc n) timestamp [] h = refl
  requests-empty zero timestamp (x ∷ signs) h = cc
  requests-empty (suc n) timestamp (x ∷ signs) h = cc

  asks-empty : (s : Tss) → is_empty s.signs ≡ true → s.outbox ++ asks s ≡ s.outbox
  asks-empty s h =
      ap (λ l. s.outbox ++ l)
        (requests-empty s.sign_per_round_limit (get_date host.node.now) s.signs h)
      ∙ append-nil s.outbox

  update_as-asks :
      (s : Tss)
      → (get_index host.enc s.comm).0 ≡ ok i
      → is_turn (get_guard_turn host.node.now s) i ≡ true
      → (active_guards host.node s.detection).0 ≡ ok guards
      → meets (length guards) (update_threshold host s).threshold.value ≡ true
      → eqb (get_date host.node.now / s.turn_duration) s.last_update_round ≡ false
      → (update_as host i s).1.outbox ≡ s.outbox ++ asks s
  unfolding update_as
  update_as-asks s h turn listed enough round = elim (Bool-cases (is_empty s.signs)) [
    | inl e ↦ ground (arith, asks-empty s e)
    | inr e ↦ ground (arith, my_turn-asks s h listed enough round)
  ]

  -- In its turn `update` asks for every open sign of the round: if it is guard `i`'s turn and this
  -- guard is `i`, the active guards are as many as the threshold of then asks, and it has not asked
  -- in this round, then it sends to all one request with these guards for each of the first
  -- `signPerRoundLimit` messages left in the queue that is not posted, in their order, and nothing
  -- else.
  pub update-asks :
      (s : Tss)
      → (get_index host.enc s.comm).0 ≡ ok i
      → is_turn (get_guard_turn host.node.now s) i ≡ true
      → (active_guards host.node s.detection).0 ≡ ok guards
      → meets (length guards) (update_threshold host s).threshold.value ≡ true
      → eqb (get_date host.node.now / s.turn_duration) s.last_update_round ≡ false
      → (update host s).1.outbox ≡ s.outbox ++ asks (cleanup host.node.now s)
  unfolding update cleaned cleanup
  update-asks s h turn listed enough round =
      let again = ap (λ r. r.0) (get_index-again host.enc s.comm i h) in
      let k =
        update_as-asks (cleaned s) again (ap (λ t. is_turn t i) (get_guard_turn-cleaned s) ∙ turn)
          listed (ap (λ v. meets (length guards) v) (threshold-cleaned s) ∙ enough) round in
      ground (arith, h, k, outbox-get_index host.enc s.comm)
