-- ===== src/Dialer/Peers.antt =====
-- Peers and relays, and the address book.
use sign_protocols.Prelude.{
  ℕ, String, Option, none, some, List, [], ◌∷◌, ◌++◌, Bool, not, any, length, keep_if, get_elem?,
  index_of, if◌then◌else◌, ◌==◌,
}
use sign_protocols.Json.{◌⋯◌}
use sign_protocols.Exec.{Result, ◌>>=◌, ◌>>◌, raise, lift, pure, modifies, skip, caught, for_each}
use sign_protocols.Dialer.State.{
  CommunicationConfig, relay_multiaddrs, relay_peer_ids, Node, Method,
}

abbrev includes : List String → String → Bool
includes ids id = any (λ x. x == id) ids

abbrev pub is_relay : CommunicationConfig → String → Bool
is_relay config peer = any (λ id. id == peer) (relay_peer_ids config)

-- `negate(this.isRelay)`
abbrev pub is_listener : CommunicationConfig → String → Bool
is_listener config peer = not (is_relay config peer)

unfoldable pub get_dialer_id : Node → Method String
get_dialer_id node s =
    if s.is_started
    then pure node.peer_id s
    else raise "Dialer node isn't ready, please try later" s

unfoldable pub get_peer_ids : Node → Method (List String)
get_peer_ids node s =
    if s.is_started
    then pure node.get_peers s
    else raise "Dialer node isn't ready, please try later" s

unfoldable pub get_connected_peers_count : Node → Method ℕ
unfolding get_peer_ids
get_connected_peers_count node = do ids ← get_peer_ids node; pure (length ids)

-- The relays that are connected, and the others.
unfoldable pub get_relay_states : CommunicationConfig → Node → Method (List String × List String)
unfolding get_peer_ids
get_relay_states config node = do
  connected ← get_peer_ids node
  pure (
    keep_if (includes connected) (relay_peer_ids config),
    keep_if (λ peer. not (includes connected peer)) (relay_peer_ids config),
  )

module _ (config : CommunicationConfig) (node : Node) where
  -- the call of `addressBook.add`
  add_address : String → String → Method (Unit {0})
  add_address id multi = do
    added ← lift (node.add id multi)
    modifies λ s. record s { added = s.added ++ (id, multi) ∷ [] }

  add_peer : String → String → Method (Unit {0})
  unfolding add_address
  add_peer peer multi = do id ← lift (node.create_from_json peer); add_address id multi

  add_through : String → String → Method (Unit {0})
  unfolding get_peer_ids add_peer
  add_through peer addr = do
    multi ← lift (node.multiaddr (addr ⋯ "/p2p-circuit/p2p/" ⋯ peer))
    ids ← get_peer_ids node
    if includes ids peer then skip else add_peer peer multi

  unfoldable pub add_peers_to_address_book : List String → Method (Unit {0})
  unfolding add_through
  add_peers_to_address_book peers s =
      if s.is_started
      then for_each peers
          (λ peer. for_each (relay_multiaddrs config) λ addr. caught (add_through peer addr)) s
      else skip s

  delete_address : String → Method (Unit {0})
  delete_address peer = do
    id ← lift (node.create_from_json peer)
    deleted ← lift (node.delete id)
    modifies λ s. record s { deleted = s.deleted ++ id ∷ [] }

  unfoldable pub remove_peer_from_address_book : String → Method (Unit {0})
  unfolding delete_address
  remove_peer_from_address_book peer s =
      if s.is_started then caught (delete_address peer) s else skip s

  unfoldable pub try_reconnecting_relay : String → Method (Unit {0})
  try_reconnecting_relay peer =
      modifies λ s. record s { reconnecting = s.reconnecting ++ peer ∷ [] }

  relay_address : Option ℕ → Result String
  relay_address none = node.multiaddr "undefined"
  relay_address (some i) = elim (get_elem? (relay_multiaddrs config) i) [
    | none ↦ node.multiaddr "undefined"
    | some addr ↦ node.multiaddr addr
  ]

  add_relay : String → Method (Unit {0})
  unfolding add_address relay_address
  add_relay peer = do
    id ← lift (node.create_from_json peer)
    multi ← lift (relay_address (index_of peer (relay_peer_ids config)))
    add_address id multi

  -- What the interval of `tryReconnectingRelay` runs each time.
  unfoldable pub reconnect_relay : String → Method (Unit {0})
  unfolding add_relay
  reconnect_relay peer s = if s.is_started then caught (add_relay peer) s else skip s

  -- the listener of `peer:connect` events that `tryReconnectingRelay` adds
  unfoldable pub on_connect : String → Method (Unit {0})
  on_connect peer =
      modifies
        λ s. record s { reconnecting = keep_if (λ relay. not (relay == peer)) s.reconnecting }

  -- the listener of `peer:disconnect` events
  unfoldable pub on_disconnect : String → Method (Unit {0})
  unfolding remove_peer_from_address_book try_reconnecting_relay
  on_disconnect peer = do
    remove_peer_from_address_book peer
    if is_relay config peer then try_reconnecting_relay peer else skip

  -- the listener of `peer:discovery` events
  unfoldable pub on_discovery : String → Method (Unit {0})
  unfolding add_peers_to_address_book
  on_discovery peer =
      if is_listener config peer then add_peers_to_address_book (peer ∷ []) else skip

  -- One message of a stream of the deprecated discovery protocol; `none` stands for a text that is
  -- not JSON.
  take_peers : String → Option (List String) → Method (Unit {0})
  unfolding add_peers_to_address_book
  take_peers sender received =
      if is_relay config sender
      then elim received [
        | none ↦ raise "SyntaxError"
        | some peer_ids ↦
            add_peers_to_address_book (keep_if (λ id. not (includes node.get_peers id)) peer_ids)
      ]
      else skip

  unfoldable pub handle_peer_discovery : String → List (Option (List String)) → Method (Unit {0})
  unfolding take_peers
  handle_peer_discovery sender messages = caught (for_each messages (take_peers sender))
