-- ===== src/Detection/Update.antt =====
-- The periodic work: `init` and `update`.
pub mod Placed
use sign_protocols.Prelude.{
  ℕ, suc, ◌+◌, String, Option, none, some, List, [], ◌∷◌, Bool, not, ◌&&◌, ◌||◌, ltb, length,
  get_elem?, is_empty, any, if◌then◌else◌, ◌==◌,
}
use sign_protocols.Exec.{ok, err, ◌>>=◌, ◌>>◌, modifies, skip, for_each}
use sign_protocols.Communicator.{get_date, send_message}
use sign_protocols.Communicator
use sign_protocols.Detection.State.{
  GuardInfo, Host, Method, on_comm, detection_payload_json, register_message, heartbeat_message,
  fresh_infos,
}
use sign_protocols.Detection.Nonces.{clear_nonce, add_nonce}
use sign_protocols.Detection.Active.{active_guards}

module _ {C : Type 0} where
  -- `(peerId === '' || lastUpdate < getDate() - activeTimeout) && nonce.length === 0`
  abbrev pub needs_register : ℕ → ℕ → GuardInfo C → Bool
  needs_register date timeout info =
      (info.peer_id == "" || ltb (info.last_update + timeout) date) && is_empty info.nonce

  -- `peerId !== '' && lastUpdate < getDate() - heartbeatTimeout && nonce.length == 0`
  abbrev pub needs_heartbeat : ℕ → ℕ → GuardInfo C → Bool
  needs_heartbeat date timeout info =
      not (info.peer_id == "") && ltb (info.last_update + timeout) date && is_empty info.nonce

  -- the indexes that are left of `map((item, index) => …).filter(…)`
  pub timed_out_indexes : ℕ → ℕ → ℕ → List (GuardInfo C) → List ℕ
  timed_out_indexes date timeout i [] = []
  timed_out_indexes date timeout i (info ∷ infos) =
      let rest = timed_out_indexes date timeout (suc i) infos in
      if needs_heartbeat date timeout info then i ∷ rest else rest

module _ {C : Type 0} (host : Host) where
  abbrev pub send : String → Option String → Option String → List String → Method C (Unit {0})
  send kind nonce received peers = on_comm (
      send_message host.enc host.now kind (record { nonce = nonce; received_nonce = received })
        peers none)

  register_all : Method C (Unit {0})
  register_all = do
    nonce ← add_nonce host none
    send register_message (some nonce) none []
    modifies (clear_nonce host)

  unfoldable pub init : Method C (Unit {0})
  unfolding register_all
  init s =
      if any (needs_register (get_date host.now) s.active_timeout) s.guards_info
      then register_all s
      else skip s

  peer_at : ℕ → Method C String
  peer_at i s = elim (get_elem? s.guards_info i) [
    | none ↦ (err "TypeError", s)
    | some info ↦ (ok info.peer_id, s)
  ]

  heartbeat_to : ℕ → Method C (Unit {0})
  unfolding peer_at
  heartbeat_to i = do
    nonce ← add_nonce host (some i)
    peer ← peer_at i
    send heartbeat_message (some nonce) none (peer ∷ [])

  heartbeats : Method C (Unit {0})
  unfolding heartbeat_to timed_out_indexes
  heartbeats s =
      for_each (timed_out_indexes (get_date host.now) s.heartbeat_timeout 0 s.guards_info)
        heartbeat_to s

  init_or_heartbeats : ℕ → Method C (Unit {0})
  unfolding heartbeats
  init_or_heartbeats active s = if ltb active s.need_guard_threshold then init s else heartbeats s

  unfoldable pub update : Method C (Unit {0})
  unfolding init_or_heartbeats
  update = do
    modifies (clear_nonce host)
    active ← active_guards host
    init_or_heartbeats (length active)

  unfoldable pub change_pks : List String → Method C (Unit {0})
  change_pks new_pks = do
    modifies λ s. record s { comm = Communicator.change_pks new_pks s.comm }
    modifies λ s. record s { guards_info = fresh_infos 0 new_pks }
    update
