-- ===== src/Dialer/Channels.antt =====
-- Subscriptions, and the messages that come in on a broadcast stream.
pub mod Subscribed
use sign_protocols.Prelude.{
  String, Option, none, some, List, [], ◌∷◌, ◌++◌, Bool, true, false, ◌&&◌, ◌||◌, any, map,
  when_truthy, if◌then◌else◌, ◌==◌,
}
use sign_protocols.Prelude.Maps.{lookup, insert, keys}
use sign_protocols.Exec.{Exec, raise, modifies, skip, caught, for_each}
use sign_protocols.Dialer.State.{SubscribeChannel, SendData, Callback, Dialer, Method}

-- Every object inherits these from its prototype, so that the object of the subscriptions seems
-- to have them.
abbrev pub inherited : List String
inherited =
    "constructor" ∷ "hasOwnProperty" ∷ "isPrototypeOf" ∷ "propertyIsEnumerable" ∷ "toLocaleString"
    ∷ "toString" ∷ "valueOf" ∷ "__proto__" ∷ "__defineGetter__" ∷ "__defineSetter__"
    ∷ "__lookupGetter__" ∷ "__lookupSetter__" ∷ []

abbrev pub is_inherited : String → Bool
is_inherited channel = any (λ name. name == channel) inherited

-- `sub.url === url` for a subscription that has a url
abbrev has_same_url : Option String → Option String → Bool
has_same_url none url = false
has_same_url (some u) none = false
has_same_url (some u) (some v) = u == v

abbrev is_falsy : Option String → Bool
is_falsy url = elim (when_truthy url) [ none ↦ true | some u ↦ false ]

abbrev pub is_redundant : String → Option String → SubscribeChannel → Bool
is_redundant callback url sub = sub.func == callback && (has_same_url sub.url url || is_falsy url)

subscribe_to : String → String → Option String → Option (List SubscribeChannel) → Method (Unit {0})
subscribe_to channel callback url none =
    if is_inherited channel
    then raise "this._subscribedChannels[channel].find is not a function"
    else modifies λ s. record s {
      subscribed_channels =
          insert channel (record { func = callback; url = when_truthy url } ∷ [])
            s.subscribed_channels;
    }
subscribe_to channel callback url (some subs) =
    if any (is_redundant callback url) subs
    then skip
    else modifies λ s. record s {
      subscribed_channels =
          insert channel (subs ++ record { func = callback; url = when_truthy url } ∷ [])
            s.subscribed_channels;
    }

unfoldable pub subscribe_channel : String → String → Option String → Method (Unit {0})
unfolding subscribe_to
subscribe_channel channel callback url s =
    subscribe_to channel callback url (lookup channel s.subscribed_channels) s

unfoldable pub get_subscribed_channels : Dialer → List String
get_subscribed_channels s = keys s.subscribed_channels

abbrev pub callback_of : SendData → String → SubscribeChannel → Callback
callback_of received sender sub = record {
  func = sub.func;
  msg = received.msg;
  channel = received.channel;
  sender = sender;
  url = sub.url;
}

run_callbacks : SendData → String → Option (List SubscribeChannel) → Method (Unit {0})
run_callbacks received sender none =
    if is_inherited received.channel
    then raise "this._subscribedChannels[receivedData.channel].forEach is not a function"
    else skip
run_callbacks received sender (some subs) =
    modifies λ s. record s { called = s.called ++ map (callback_of received sender) subs }

-- One message of a stream; `none` stands for a text that is not JSON.
unfoldable pub take_broadcast : String → Option SendData → Method (Unit {0})
unfolding run_callbacks
take_broadcast sender none = raise "SyntaxError"
take_broadcast sender (some received) =
    λ s. run_callbacks received sender (lookup received.channel s.subscribed_channels) s

-- The messages of a stream, in order, from the peer at its other end.
unfoldable pub handle_broadcast : String → List (Option SendData) → Method (Unit {0})
unfolding take_broadcast
handle_broadcast sender messages = caught (for_each messages (take_broadcast sender))
