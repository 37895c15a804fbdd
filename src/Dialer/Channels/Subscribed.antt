-- ===== src/Dialer/Channels/Subscribed.antt =====
-- Who is subscribed to a channel, and who is called when a message comes.
use sign_protocols.Prelude.{
  append-nil, append_assoc, String, ◌≡◌, refl, sym, ◌∙◌, Option, none, some, List, [], ◌∷◌, ◌++◌,
  Bool, true, false, ◌&&◌, any, map, arith, inl, inr, Bool-cases, Option-cases, when_truthy,
  if◌then◌else◌, ◌==◌,
}
use sign_protocols.Prelude.Maps.{Entries, lookup, insert, lookup-insert}
use sign_protocols.Exec.{for_each}
use sign_protocols.Dialer.State.{SubscribeChannel, SendData, Callback, Dialer}
use sign_protocols.Dialer.Channels.{
  is_inherited, is_redundant, subscribe_to, subscribe_channel, callback_of, run_callbacks,
  take_broadcast, handle_broadcast,
}
use mathlib.Core.Path.{subst}

abbrev same_url : Option String → Option String → Bool
same_url none none = true
same_url none (some v) = false
same_url (some u) none = false
same_url (some u) (some v) = u == v

-- the same callback with the same url
abbrev pub is_same : SubscribeChannel → SubscribeChannel → Bool
is_same x y = x.func == y.func && same_url x.url y.url

-- no subscription stands twice
abbrev pub AllApart : List SubscribeChannel → Type 0
AllApart [] = Unit
AllApart (x ∷ xs) = (any (is_same x) xs ≡ false) × AllApart xs

any-append :
    (p : SubscribeChannel → Bool) (xs : List SubscribeChannel) (x : SubscribeChannel)
    → any p xs ≡ false
    → p x ≡ false
    → any p (xs ++ x ∷ []) ≡ false
any-append p [] x h e = ground arith
any-append p (y ∷ xs) x h e = ground (arith, any-append p xs x)

append-AllApart :
    (xs : List SubscribeChannel) (x : SubscribeChannel)
    → AllApart xs
    → any (λ y. is_same y x) xs ≡ false
    → AllApart (xs ++ x ∷ [])
append-AllApart [] x a h = (refl, tt)
append-AllApart (y ∷ xs) x a h = (
  any-append (is_same y) xs x a.0 (ground (arith, h)),
  append-AllApart xs x a.1 (ground (arith, h)),
)

new_apart :
    (callback : String) (url : Option String) (xs : List SubscribeChannel)
    → any (is_redundant callback url) xs ≡ false
    → any (λ y. is_same y (record { func = callback; url = when_truthy url })) xs ≡ false
new_apart callback url [] h = refl
new_apart callback none (x ∷ xs) h = ground (arith, h, new_apart callback none xs)
new_apart callback (some u) (x ∷ xs) h = elim (Bool-cases (u == "")) [
  | inl e ↦ ground (arith, h, e, new_apart callback (some u) xs)
  | inr e ↦ elim (Option-cases x.url) [
    | inl f ↦ ground (arith, h, e, f, new_apart callback (some u) xs)
    | inr (v, f) ↦ ground (arith, h, e, f, new_apart callback (some u) xs)
  ]
]

-- The subscriptions of every channel, for a list of what is subscribed.
abbrev pub IsApart : Dialer → Type 0
IsApart s =
    (channel : String) (subs : List SubscribeChannel)
    → lookup channel s.subscribed_channels ≡ some subs
    → AllApart subs

-- The calls that the messages of a stream lead to, up to the first one that is not JSON or names
-- a channel that only the prototype has.
abbrev pub expected :
    Entries (List SubscribeChannel) → String → List (Option SendData) → List Callback
expected channels sender [] = []
expected channels sender (none ∷ messages) = []
expected channels sender (some received ∷ messages) =
    let rest = expected channels sender messages in
    elim (lookup received.channel channels) [
      | none ↦ if is_inherited received.channel then [] else rest
      | some subs ↦ map (callback_of received sender) subs ++ rest
    ]

called-for_each :
    (sender : String) (messages : List (Option SendData)) (s : Dialer)
    → (for_each messages (take_broadcast sender) s).1.called
      ≡ s.called ++ expected s.subscribed_channels sender messages
unfolding for_each take_broadcast run_callbacks
called-for_each sender [] s = sym (append-nil s.called)
called-for_each sender (none ∷ messages) s = sym (append-nil s.called)
called-for_each sender (some received ∷ messages) s =
    elim (Option-cases (lookup received.channel s.subscribed_channels)) [
      | inl e ↦ elim (Bool-cases (is_inherited received.channel)) [
        | inl f ↦ rw (expected, e, f) (sym (append-nil s.called))
        | inr f ↦ rw (expected, e, f) (called-for_each sender messages s)
      ]
      | inr (subs, e) ↦
          let new = map (callback_of received sender) subs in
          rw (expected, e)
            (called-for_each sender messages (record s { called = s.called ++ new })
              ∙ append_assoc s.called new (expected s.subscribed_channels sender messages))
    ]

-- A message that comes in is handed to everyone who is subscribed to its channel: of the messages
-- of a stream, in their order, each leads to one call of each subscription of its channel, with
-- the text, the channel and the peer at the other end, until one is not JSON or names a property
-- that every object inherits, which ends the stream's handling without an error.
pub handle_broadcast-expected :
    (sender : String) (messages : List (Option SendData)) (s : Dialer)
    → (handle_broadcast sender messages s).1.called
      ≡ s.called ++ expected s.subscribed_channels sender messages
unfolding handle_broadcast
handle_broadcast-expected sender messages s = called-for_each sender messages s

-- A callback is not subscribed twice with the same url: when that holds of every channel, it holds
-- of every channel after any call of `subscribeChannel`.
pub subscribe_channel-IsApart :
    (channel callback : String) (url : Option String) (s : Dialer)
    → IsApart s
    → IsApart (subscribe_channel channel callback url s).1
unfolding subscribe_channel subscribe_to
subscribe_channel-IsApart channel callback url s i =
    elim (Option-cases (lookup channel s.subscribed_channels)) [
      | inl e ↦ elim (Bool-cases (is_inherited channel)) [
        | inl f ↦ rw (e, f) i
        | inr f ↦
            rw (e, f) (inserted (record { func = callback; url = when_truthy url } ∷ []) (refl, tt))
      ]
      | inr (subs, e) ↦ elim (Bool-cases (any (is_redundant callback url) subs)) [
        | inl f ↦ rw (e, f) i
        | inr f ↦
            rw (e, f)
              (inserted (subs ++ record { func = callback; url = when_truthy url } ∷ []) (
                append-AllApart subs (record { func = callback; url = when_truthy url })
                  (i channel subs e) (new_apart callback url subs f)))
      ]
    ]
  where
    inserted :
        (subs : List SubscribeChannel)
        → AllApart subs
        → (ch : String) (found : List SubscribeChannel)
        → lookup ch (insert channel subs s.subscribed_channels) ≡ some found
        → AllApart found
    inserted subs a ch found h = elim (Bool-cases (channel == ch)) [
      | inl b ↦
          let e : subs ≡ found =
            ground (arith, h, b, lookup-insert channel ch subs s.subscribed_channels) in
          subst AllApart e a
      | inr b ↦
          i ch found (ground (arith, h, b, lookup-insert channel ch subs s.subscribed_channels))
    ]
