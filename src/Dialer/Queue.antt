-- ===== src/Dialer/Queue.antt =====
-- The queue of messages to send: `sendMessage`, and how `processMessageQueue` sends and retries.
pub mod Retries
use sign_protocols.Prelude.{
  ℕ, suc, ◌+◌, ◌*◌, ◌^◌, String, Option, none, some, List, [], ◌∷◌, ◌++◌, Bool, false, not, ◌&&◌,
  map, leb, eqb, keep_if, head?, when_truthy, if◌then◌else◌, ◌==◌,
}
use sign_protocols.Prelude.Maps.{lookup, insert}
use sign_protocols.Exec.{Result, ok, err, ◌>>=◌, ◌>>◌, raise, lift, modifies, skip}
use sign_protocols.Dialer.State.{
  CommunicationConfig, SendData, QueuedMessage, Stream, Connection, Node, Dialer, Method,
}
use sign_protocols.Dialer.Peers.{is_listener}

abbrev pub broadcast_protocol : String
broadcast_protocol = "/broadcast"

abbrev queued : SendData → String → QueuedMessage
queued message peer = record { peer = peer; message_to_send = message; retries_count = 0 }

push_message_to_message_queue : String → SendData → Method (Unit {0})
push_message_to_message_queue peer message =
    modifies λ s. record s { message_queue = s.message_queue ++ queued message peer ∷ [] }

-- one push for each peer
abbrev push_to_all : SendData → List String → Method (Unit {0})
push_to_all message peers =
    modifies λ s. record s { message_queue = s.message_queue ++ map (queued message) peers }

module _ (config : CommunicationConfig) (node : Node) where
  push_to_listeners : SendData → Method (Unit {0})
  push_to_listeners message s =
      if s.is_started
      then push_to_all message (keep_if (is_listener config) node.get_peers) s
      else raise "Cannot read properties of undefined" s

  send_to : SendData → Option String → Method (Unit {0})
  unfolding push_message_to_message_queue push_to_listeners
  send_to message none = push_to_listeners message
  send_to message (some receiver) = do
    id ← lift (node.create_from_json receiver)
    push_message_to_message_queue id message

  unfoldable pub send_message : String → String → Option String → Method (Unit {0})
  unfolding send_to
  send_message channel msg receiver =
      send_to (record { msg = msg; channel = channel; receiver = when_truthy receiver })
        (when_truthy receiver)

  abbrev find_stream : String → List Stream → Option Stream
  find_stream protocol streams =
      head? (keep_if (λ (obj : Stream). obj.protocol == protocol && obj.is_outbound) streams)

  -- the first open connection with an outbound stream of the protocol
  open_stream : String → List Connection → Option Stream
  open_stream protocol [] = none
  open_stream protocol (conn ∷ conns) =
      let rest = open_stream protocol conns in
      if conn.is_open
      then (elim (find_stream protocol conn.streams) [ none ↦ rest | some stream ↦ some stream ])
      else rest

  stream_or_dial : String → String → Option Stream → Method Stream
  stream_or_dial peer protocol (some stream) = lift (ok stream)
  stream_or_dial peer protocol none = do
    connection ← lift (node.dial peer)
    lift (node.new_stream connection protocol)

  -- A node that is not set throws.
  unfoldable pub get_open_stream : String → String → Method Stream
  unfolding open_stream stream_or_dial
  get_open_stream peer protocol s =
      (if s.is_started
          then stream_or_dial peer protocol (open_stream protocol (node.get_connections peer))
          else raise "Cannot read properties of undefined")
        s

  is_piped : Option ℕ → ℕ → Bool
  is_piped none id = false
  is_piped (some stream) id = eqb stream id

  -- `getStreamSource`: a new source is piped unless the peer's source goes to this stream.
  get_stream_source : String → Stream → Method (Unit {0})
  unfolding is_piped
  get_stream_source peer stream s =
      if is_piped (lookup peer s.routes) stream.id
      then skip s
      else (do
        modifies λ s1. record s1 { routes = insert peer stream.id s1.routes }
        lift (node.pipe stream.id))
          s

  push_to_stream : String → SendData → Stream → Method (Unit {0})
  unfolding get_stream_source
  push_to_stream peer message stream = do
    get_stream_source peer stream
    modifies λ s. record s { pushed = s.pushed ++ (stream.id, message) ∷ [] }

  -- `1000 * factor ** retries`
  abbrev pub delay : ℕ → ℕ
  delay retries = 1000 * config.message_sending_retries_exponential_factor ^ retries

  unfoldable pub retry_sending_message : ℕ → QueuedMessage → Dialer → Dialer
  retry_sending_message now m s =
      if leb (suc m.retries_count) config.message_sending_retries_max_count
      then record s {
        timers =
            s.timers
            ++ (now + delay (suc m.retries_count), record m { retries_count = suc m.retries_count })
              ∷ [];
      }
      else s

  abbrev pub or_retry : ℕ → QueuedMessage → Result (Unit {0}) → Dialer → Dialer
  or_retry now m (ok u) s = s
  or_retry now m (err e) s = retry_sending_message now m s

  -- The inner `try`: what throws once the stream is there is not retried.
  try_push : QueuedMessage → Stream → Method (Unit {0})
  unfolding push_to_stream
  try_push m stream s = (ok tt, (push_to_stream m.peer m.message_to_send stream s).1)

  send_queued : QueuedMessage → Method (Unit {0})
  unfolding get_open_stream try_push
  send_queued m = do
    peer ← lift (node.create_from_json m.peer)
    stream ← get_open_stream peer broadcast_protocol
    try_push m stream

  process_message : ℕ → QueuedMessage → Dialer → Dialer
  unfolding send_queued retry_sending_message
  process_message now m s = let (r, s') = send_queued m s in or_retry now m r s'

  process_next_of : ℕ → List QueuedMessage → Dialer → Dialer
  unfolding process_message
  process_next_of now [] s = s
  process_next_of now (m ∷ queue) s = process_message now m (record s { message_queue = queue })

  -- The next message of the queue, when there is one.
  unfoldable pub process_next : ℕ → Dialer → Dialer
  unfolding process_next_of
  process_next now s = process_next_of now s.message_queue s

-- The retries whose time has come are pushed to the queue.
abbrev is_due : ℕ → ℕ × QueuedMessage → Bool
is_due now (due, m) = leb due now

unfoldable pub run_timers : ℕ → Dialer → Dialer
run_timers now s = record s {
  message_queue = s.message_queue ++ map (λ t. t.1) (keep_if (is_due now) s.timers);
  timers = keep_if (λ t. not (is_due now t)) s.timers;
}
