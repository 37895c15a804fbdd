-- ===== src/Detection/Update/Placed.antt =====
-- The places of the entries in `init`, `update` and `changePks`.
use sign_protocols.Prelude.{
  ℕ, String, none, some, List, [], ◌∷◌, arith, length, any, ltb, get_elem?, Bool-cases,
  Option-cases, inl, inr,
}
use sign_protocols.Exec.Invariance.{Keeps, Keeps-bind, Keeps-for_each}
use sign_protocols.Communicator
use sign_protocols.Communicator.{get_date}
use sign_protocols.Detection.State.{GuardDetection, Host, register_message, heartbeat_message}
use sign_protocols.Detection.Update.{
  needs_register, register_all, init, peer_at, heartbeat_to, heartbeats, timed_out_indexes,
  init_or_heartbeats, update, change_pks,
}
use sign_protocols.Detection.Places.{
  IsAligned, map_place-fresh_infos, send-IsAligned, Keeps-clear_nonce, add_nonce-IsAligned,
  active_guards-IsAligned,
}

module _ {C : Type 0} (host : Host) where
  register_all-IsAligned : Keeps (IsAligned {C = C}) (register_all host)
  unfolding register_all
  register_all-IsAligned = Keeps-bind (add_nonce-IsAligned host none) λ nonce.
      Keeps-bind (send-IsAligned host register_message (some nonce) none [])
        λ _. Keeps-clear_nonce host

  pub init-IsAligned : Keeps (IsAligned {C = C}) (init host)
  unfolding init
  init-IsAligned = record {
    kept = λ s a.
        elim (Bool-cases
          (any (needs_register (get_date host.now) s.active_timeout) s.guards_info)) [
            | inl e ↦ ground (arith, register_all-IsAligned.kept s a)
            | inr e ↦ ground arith
          ];
  }

  peer_at-IsAligned : (i : ℕ) → Keeps (IsAligned {C = C}) (peer_at host i)
  unfolding peer_at
  peer_at-IsAligned i = record {
    kept = λ s a. elim (Option-cases (get_elem? s.guards_info i)) [
      | inl e ↦ ground arith
      | inr (info, e) ↦ ground arith
    ];
  }

  heartbeat_to-IsAligned : (i : ℕ) → Keeps (IsAligned {C = C}) (heartbeat_to host i)
  unfolding heartbeat_to
  heartbeat_to-IsAligned i = Keeps-bind (add_nonce-IsAligned host (some i)) λ nonce.
      Keeps-bind (peer_at-IsAligned i)
        λ peer. send-IsAligned host heartbeat_message (some nonce) none (peer ∷ [])

  init_or_heartbeats-IsAligned : (n : ℕ) → Keeps (IsAligned {C = C}) (init_or_heartbeats host n)
  unfolding init_or_heartbeats heartbeats
  init_or_heartbeats-IsAligned n = record {
    kept = λ s a. elim (Bool-cases (ltb n s.need_guard_threshold)) [
      | inl e ↦ ground (arith, init-IsAligned.kept s a)
      | inr e ↦ ground (
        arith,
        (Keeps-for_each (timed_out_indexes (get_date host.now) s.heartbeat_timeout 0 s.guards_info)
              heartbeat_to-IsAligned).kept
            s a,
      )
    ];
  }

  pub update-IsAligned : Keeps (IsAligned {C = C}) (update host)
  unfolding update
  update-IsAligned = Keeps-bind (Keeps-clear_nonce host) λ _.
      Keeps-bind (active_guards-IsAligned host)
        λ guards. init_or_heartbeats-IsAligned (length guards)

  -- `changePks` makes new entries beside the new keys, whatever stood there before.
  pub change_pks-IsAligned :
      (pks : List String) (s : GuardDetection C) → IsAligned (change_pks host pks s).1
  unfolding change_pks Communicator.change_pks
  change_pks-IsAligned pks s = update-IsAligned.kept _ (map_place-fresh_infos C 0 pks)
