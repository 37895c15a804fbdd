-- ===== src/Tests/Keeping.antt =====
-- Turns, times and the cache, tried at concrete times.
use sign_protocols.Prelude.{
  ◌⊎◌, ◌+◌, ◌*◌, ◌≡◌, refl, none, some, [], ◌∷◌, false, arith, leb, if◌then◌else◌,
}
use sign_protocols.Communicator.{get_date}
use sign_protocols.Tss.State.{Tss}
use sign_protocols.Tss.Turns.{turn_of, cleanup}
use sign_protocols.Tss.Queue.{add_sign_to_cache, expire_cache}
use sign_protocols.Prelude.Maps.{lookup}
use sign_protocols.Tss.Queueing.{lookup-expire_cache}
use sign_protocols.Tss.Round.{update, update_threshold}
use sign_protocols.Tss.Round.Once.{update-once}
use sign_protocols.Prelude.{◌++◌}
use sign_protocols.Communicator.{get_index}
use sign_protocols.Detection.State.{GuardInfo}
use sign_protocols.Detection.Active.{active_guards, sort}
use sign_protocols.Tss.State.{Retry}
use sign_protocols.Tss.Turns.{get_guard_turn}
use sign_protocols.Tss.Round.Asking.{asks, update-asks}
use sign_protocols.Tss.Rotation.{turn_of-cycle}
use sign_protocols.Tests.Data.{both, detection_of, host_at, sign_of, signer_of, asked, result}

abbrev queued : Tss
queued = signer_of (sign_of (some asked) false ∷ [])

turn_of-cycle_example : turn_of ((7 * 3 + 2) * 60 + 59) 60 3 ≡ some 2
turn_of-cycle_example = turn_of-cycle 7 2 59 60 3 (omega arith) (omega arith)

lookup-expire_cache_example :
    lookup "m" (expire_cache 9000000 (add_sign_to_cache 80000 "m" result queued)).sign_cache
    ≡ (if leb (80000 + 7200 * 1000) 9000000 then none else some result)
lookup-expire_cache_example =
    lookup-expire_cache 80000 9000000 "m" result queued (unfold lookup in refl, refl)

abbrev known_b : GuardInfo Retry
known_b = record {
  peer_id = "peer-b";
  nonce = [];
  last_update = 60;
  public_key = "B";
  callback = [];
  index = 1;
}

abbrev with_b : Tss
with_b = record queued { detection = detection_of (known_b ∷ []) }

update-asks_example :
    (update (host_at 132000) with_b).1.outbox
    ≡ [] ++ asks (host_at 132000) both 0 (cleanup 132000 with_b)
update-asks_example =
    update-asks (host_at 132000) both 0 with_b (unfold get_index in refl)
      (unfold get_guard_turn turn_of get_date in refl)
      (unfold active_guards get_index get_date sort in refl) (unfold update_threshold in refl)
      (unfold get_date in refl)

update-once_example :
    ((update (host_at 132000) with_b).1.outbox ≡ [])
    ⊎ ((update (host_at 133000) (update (host_at 132000) with_b).1).1.outbox
        ≡ (update (host_at 132000) with_b).1.outbox)
update-once_example = update-once (host_at 132000) (host_at 133000) with_b (unfold get_date in refl)
