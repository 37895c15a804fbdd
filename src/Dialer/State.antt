-- ===== src/Dialer/State.antt =====
-- The state of `Dialer`, what it takes from libp2p, and its configuration.
use sign_protocols.Prelude.{ℕ, String, Option, List, Bool, map}
use sign_protocols.Prelude.Maps.{Entries}
use sign_protocols.Json.{◌⋯◌}
use sign_protocols.Exec.{Result, Exec}

pub record RelayInfo : Type 0 where
  pub peer_id : String
  pub address : String

-- What the dialer reads of CommunicationConfig.ts.
pub record CommunicationConfig : Type 0 where
  pub relays_info : List RelayInfo
  pub message_sending_retries_exponential_factor : ℕ
  pub message_sending_retries_max_count : ℕ

abbrev pub relay_multiaddrs : CommunicationConfig → List String
relay_multiaddrs config = map (λ (info : RelayInfo). info.address ⋯ info.peer_id) config.relays_info

abbrev pub relay_peer_ids : CommunicationConfig → List String
relay_peer_ids config = map (λ (info : RelayInfo). info.peer_id) config.relays_info

-- A callback is its name; a url that is empty is none.
pub record SubscribeChannel : Type 0 where
  pub func : String
  pub url : Option String

pub record SendData : Type 0 where
  pub msg : String
  pub channel : String
  pub receiver : Option String

pub record QueuedMessage : Type 0 where
  pub peer : String
  pub message_to_send : SendData
  pub retries_count : ℕ

-- One call of a subscribed callback.
pub record Callback : Type 0 where
  pub func : String
  pub msg : String
  pub channel : String
  pub sender : String
  pub url : Option String

pub record Stream : Type 0 where
  pub id : ℕ
  pub protocol : String
  pub is_outbound : Bool

pub record Connection : Type 0 where
  pub is_open : Bool
  pub streams : List Stream

-- The node's answers while a method runs; peer ids are texts. `create_from_json` reads an id,
-- `add` and `delete` change the address book, and `pipe` joins a source to a stream.
pub record Node : Type 0 where
  pub peer_id : String
  pub get_peers : List String
  pub create_from_json : String → Result String
  pub multiaddr : String → Result String
  pub add : String → String → Result (Unit {0})
  pub delete : String → Result (Unit {0})
  pub get_connections : String → List Connection
  pub dial : String → Result Connection
  pub new_stream : Connection → String → Result Stream
  pub pipe : ℕ → Result (Unit {0})

-- `is_started` says that the node is set. `timers` are the pending retries with their times in
-- milliseconds, `reconnecting` the relays whose reconnection runs at intervals, and `routes` the
-- streams to which the peers' sources are piped. What goes out is logged: the texts pushed to a
-- stream, the calls of callbacks, and the changes of the address book.
pub record Dialer : Type 0 where
  pub is_started : Bool
  pub subscribed_channels : Entries (List SubscribeChannel)
  pub message_queue : List QueuedMessage
  pub timers : List (ℕ × QueuedMessage)
  pub routes : Entries ℕ
  pub reconnecting : List String
  pub pushed : List (ℕ × SendData)
  pub called : List Callback
  pub added : List (String × String)
  pub deleted : List String

abbrev pub Method : Type 0 → Type 0
Method A = Exec Dialer A
