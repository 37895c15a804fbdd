-- ===== src/Tests/Dial.antt =====
-- The dialer, tried with a node to which nobody answers.
use sign_protocols.Prelude.{◌≤◌, ◌≡◌, refl, none, some, List, [], ◌∷◌, ◌++◌, true, arith}
use sign_protocols.Prelude.Maps.{lookup}
use sign_protocols.Exec.{ok, err}
use sign_protocols.Dialer.State.{CommunicationConfig, SendData, Node, Dialer}
use sign_protocols.Dialer.Queue.{send_message, process_next, run_timers}
use sign_protocols.Dialer.Queue.Retries.{
  Event, next, timers, attempts, tries_left, attempts-tries_left,
}
use sign_protocols.Dialer.Channels.{subscribe_channel, handle_broadcast}
use sign_protocols.Dialer.Channels.Subscribed.{
  IsApart, expected, handle_broadcast-expected, subscribe_channel-IsApart,
}

abbrev config : CommunicationConfig
config = record {
  relays_info = record { peer_id = "relay"; address = "/dns4/relay/p2p/" } ∷ [];
  message_sending_retries_exponential_factor = 5;
  message_sending_retries_max_count = 3;
}

abbrev silent : Node
silent = record {
  peer_id = "me";
  get_peers = "relay" ∷ "peer" ∷ [];
  create_from_json = λ id. ok id;
  multiaddr = λ text. ok text;
  add = λ id address. ok tt;
  delete = λ id. ok tt;
  get_connections = λ id. [];
  dial = λ id. err "no answer";
  new_stream = λ connection protocol. err "no stream";
  pipe = λ id. ok tt;
}

abbrev idle : Dialer
idle = record {
  is_started = true;
  subscribed_channels = [];
  message_queue = [];
  timers = [];
  routes = [];
  reconnecting = [];
  pushed = [];
  called = [];
  added = [];
  deleted = [];
}

abbrev sending : Dialer
sending = (send_message config silent "tss" "hello" none idle).1

abbrev course : List Event
course = next silent 0 ∷ timers 5000 ∷ next silent 5000 ∷ timers 5001 ∷ next silent 6000 ∷ []

sending-attempts : attempts config course sending ≡ 2
unfolding send_message process_next run_timers
sending-attempts = refl

attempts-tries_left_example : attempts config course sending ≤ tries_left config sending
attempts-tries_left_example = attempts-tries_left config course sending

abbrev subscribed : Dialer
subscribed = (subscribe_channel "tss" "apiCallBack" (some "http://tss") idle).1

abbrev hello : SendData
hello = record { msg = "hello"; channel = "tss"; receiver = none }

handle_broadcast-expected_example :
    (handle_broadcast "peer" (some hello ∷ none ∷ some hello ∷ []) subscribed).1.called
    ≡ subscribed.called
      ++ expected subscribed.subscribed_channels "peer" (some hello ∷ none ∷ some hello ∷ [])
handle_broadcast-expected_example =
    handle_broadcast-expected "peer" (some hello ∷ none ∷ some hello ∷ []) subscribed

idle-IsApart : IsApart idle
unfolding lookup
idle-IsApart channel subs h = ground (arith, h)

subscribe_channel-IsApart_example : IsApart subscribed
subscribe_channel-IsApart_example =
    subscribe_channel-IsApart "tss" "apiCallBack" (some "http://tss") idle idle-IsApart
