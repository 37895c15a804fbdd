-- ===== src/Tss/Round/Quiet.antt =====
-- When `update` asks for signatures, and how long a threshold is kept.
use sign_protocols.Prelude.{
  ℕ, ◌+◌, ◌/◌, ◌<◌, ◌≡◌, ◌⊎◌, inl, inr, some, leb, if◌then◌else◌, List, [], false, arith,
}
use sign_protocols.Exec.{ok, Result-value}
use sign_protocols.Communicator.{get_date, get_index}
use sign_protocols.Communicator.Index.{outbox-get_index, guard_pks-get_index}
use sign_protocols.Detection.State.{ActiveGuard, set_need_guard_threshold}
use sign_protocols.Detection.Active.{active_guards}
use sign_protocols.Tss.State.{Tss, sign_payload_json}
use sign_protocols.Tss.Turns.{get_guard_turn, is_turn, cleanup}
use sign_protocols.Tss.Approved.{SignerHost}
use sign_protocols.Tss.Round.{
  update, update_threshold, update_as, my_turn, request_if_enough, request_signs,
}

module _ (host : SignerHost) where
  -- The service's threshold plus one is taken when the kept one has run out, and it is then kept for
  -- `thresholdTTL` milliseconds: up to that time `updateThreshold` leaves the threshold, and after it
  -- the service's answer of then is taken.
  pub update_threshold-ttl :
      (later : SignerHost) (t u : ℕ) (s : Tss)
      → host.api.threshold ≡ some t
      → later.api.threshold ≡ some u
      → s.threshold.expiry < host.node.now
      → let s' = update_threshold host s in
        (s'.threshold.value ≡ some (t + 1))
        × (s'.detection.need_guard_threshold ≡ t + 1)
        × ((update_threshold later s').threshold.value ≡ (
            if leb later.node.now (host.node.now + s.threshold_ttl)
            then some (t + 1)
            else some (u + 1)))
  unfolding update_threshold set_need_guard_threshold
  update_threshold-ttl later t u s ht hu h = (ground arith, ground arith, ground arith)

  -- `update` has asked in this round.
  abbrev pub HasAsked : Tss → Type 0
  HasAsked s = get_date host.node.now / s.turn_duration ≡ s.last_update_round

  request_if_enough-quiet :
      (guards : List ActiveGuard) (s : Tss)
      → HasAsked s
      → (request_if_enough host guards s).1.outbox ≡ s.outbox
  unfolding request_if_enough request_signs
  request_if_enough-quiet guards s q = ground arith

  HasAsked-update_threshold :
      (s : Tss)
      → HasAsked s
      → HasAsked (update_threshold host s) × ((update_threshold host s).outbox ≡ s.outbox)
  unfolding update_threshold
  HasAsked-update_threshold s q = ground arith

  my_turn-quiet : (s : Tss) → HasAsked s → (my_turn host s).1.outbox ≡ s.outbox
  unfolding my_turn
  my_turn-quiet s q =
      let (a, o) = HasAsked-update_threshold s q in
      elim (Result-value (active_guards host.node (update_threshold host s).detection).0) [
        | inr (x, e) ↦ ground (arith, o)
        | inl (guards, e) ↦ ground (
          arith,
          o,
          request_if_enough-quiet guards
              (record (update_threshold host s) {
                detection = (active_guards host.node (update_threshold host s).detection).1;
              })
              a,
        )
      ]

  update_as-quiet :
      (i : ℕ) (s : Tss)
      → (is_turn (get_guard_turn host.node.now s) i ≡ false) ⊎ (s.signs ≡ []) ⊎ HasAsked s
      → (update_as host i s).1.outbox ≡ s.outbox
  unfolding update_as
  update_as-quiet i s (inl q) = ground arith
  update_as-quiet i s (inr (inl q)) = ground arith
  update_as-quiet i s (inr (inr q)) = ground (arith, my_turn-quiet s q)

  after_index : Tss → Tss
  after_index s = record (cleanup host.node.now s) { comm = (get_index host.enc s.comm).1 }

  get_guard_turn-after_index :
      (s : Tss) → get_guard_turn host.node.now (after_index s) ≡ get_guard_turn host.node.now s
  unfolding get_guard_turn after_index cleanup
  get_guard_turn-after_index s = rw (guard_pks-get_index host.enc s.comm)

  -- `update` sends no message when it is another guard's turn, when nothing is left in the queue, or
  -- when it has already asked in this round.
  pub update-quiet :
      (s : Tss)
      → ((i : ℕ)
          → (get_index host.enc s.comm).0 ≡ ok i
          → is_turn (get_guard_turn host.node.now s) i ≡ false)
        ⊎ ((cleanup host.node.now s).signs ≡ [])
        ⊎ HasAsked s
      → (update host s).1.outbox ≡ s.outbox
  unfolding update cleanup after_index
  update-quiet s q = elim (Result-value (get_index host.enc s.comm).0) [
    | inr (x, e) ↦ ground (arith, outbox-get_index host.enc s.comm)
    | inl (i, e) ↦
        ground
          (arith, outbox-get_index host.enc s.comm, update_as-quiet i (after_index s) (still i e q))
  ]
    where
      still :
          (i : ℕ)
          → (get_index host.enc s.comm).0 ≡ ok i
          → ((i : ℕ)
              → (get_index host.enc s.comm).0 ≡ ok i
              → is_turn (get_guard_turn host.node.now s) i ≡ false)
            ⊎ ((cleanup host.node.now s).signs ≡ [])
            ⊎ HasAsked s
          → (is_turn (get_guard_turn host.node.now (after_index s)) i ≡ false)
            ⊎ ((after_index s).signs ≡ [])
            ⊎ HasAsked (after_index s)
      still i e (inl h) = inl (rw (get_guard_turn-after_index s) (h i e))
      still i e (inr (inl h)) = inr (inl h)
      still i e (inr (inr h)) = inr (inr h)
