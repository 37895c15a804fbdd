-- ===== src/Dialer/Queue/Retries.antt =====
-- How often a message is tried.
use sign_protocols.Prelude.{
  ℕ, suc, ◌+◌, ◌-◌, ◌≤◌, ◌≡◌, refl, ap, Option, none, some, List, [], ◌∷◌, ◌++◌, not, map, leb,
  leb→le, keep_if, is_empty, arith, inl, inr, Bool-cases, if◌then◌else◌, String,
}
use sign_protocols.Prelude.Maps.{lookup, insert}
use sign_protocols.Exec.{Result, ok, err}
use sign_protocols.Exec.Triples.{
  Gives-if, Gives-raise, Gives, Anything, Gives-bind, Gives-lift, Gives-lift_bind, Gives-modifies,
}
use sign_protocols.Dialer.State.{CommunicationConfig, SendData, QueuedMessage, Stream, Node, Dialer}
use sign_protocols.Dialer.Queue.{
  broadcast_protocol, open_stream, stream_or_dial, get_open_stream, is_piped, get_stream_source,
  push_to_stream, try_push, send_queued, delay, retry_sending_message, or_retry, process_message,
  process_next_of, process_next, is_due, run_timers,
}

module _ (queue : List QueuedMessage) (timers : List (ℕ × QueuedMessage)) where
  -- the queue and the timers are these
  abbrev Waits : Dialer → Type 0
  Waits s = (s.message_queue ≡ queue) × (s.timers ≡ timers)

  module _ (config : CommunicationConfig) (node : Node) where
    Waits-stream_or_dial :
        (peer protocol : String) (found : Option Stream)
        → Gives Waits Anything (stream_or_dial config node peer protocol found)
    unfolding stream_or_dial
    Waits-stream_or_dial peer protocol (some stream) = Gives-lift (ok stream) λ _ _. tt
    Waits-stream_or_dial peer protocol none =
        Gives-lift_bind (node.dial peer)
          λ connection. Gives-lift (node.new_stream connection protocol) λ _ _. tt

    Waits-get_open_stream :
        (peer protocol : String) → Gives Waits Anything (get_open_stream config node peer protocol)
    unfolding get_open_stream
    Waits-get_open_stream peer protocol = record {
      given = λ s w.
          (Gives-if s.is_started
              (λ _.
                Waits-stream_or_dial peer protocol
                  (open_stream config node protocol (node.get_connections peer)))
              (λ _. Gives-raise _)).given
            s w;
    }

    Waits-get_stream_source :
        (peer : String) (stream : Stream)
        → Gives Waits Anything (get_stream_source config node peer stream)
    unfolding get_stream_source
    Waits-get_stream_source peer stream = record {
      given = λ s w. elim (Bool-cases (is_piped config node (lookup peer s.routes) stream.id)) [
        | inl e ↦ rw e (tt, w)
        | inr e ↦
            rw e ((piped stream.id).given (record s { routes = insert peer stream.id s.routes }) w)
      ];
    }
      where
        piped : (id : ℕ) → Gives Waits Anything (λ s. (node.pipe id, s))
        piped id = Gives-lift (node.pipe id) λ _ _. tt

    Waits-push_to_stream :
        (peer : String) (message : SendData) (stream : Stream)
        → Gives Waits Anything (push_to_stream config node peer message stream)
    unfolding push_to_stream
    Waits-push_to_stream peer message stream =
        Gives-bind (Waits-get_stream_source peer stream) λ _ _.
          Gives-modifies (λ s. record s { pushed = s.pushed ++ (stream.id, message) ∷ [] }) λ s w. w

    Waits-send_queued : (m : QueuedMessage) → Gives Waits Anything (send_queued config node m)
    unfolding send_queued try_push
    Waits-send_queued m = Gives-lift_bind (node.create_from_json m.peer) λ peer.
        Gives-bind (Waits-get_open_stream peer broadcast_protocol) λ stream _. record {
          given = λ s w. (tt, ((Waits-push_to_stream m.peer m.message_to_send stream).given s w).1);
        }

-- One step of the dialer's own work: the next message is tried, or the timers whose time has come
-- run; the time and what the node answers are any.
pub data Event : Type 0 where
  next : Node → ℕ → Event
  timers : ℕ → Event

module _ (config : CommunicationConfig) where
  -- how often a message may be tried still
  abbrev pub tries : QueuedMessage → ℕ
  tries m = suc (config.message_sending_retries_max_count - m.retries_count)

  abbrev pub all_tries : List QueuedMessage → ℕ
  all_tries [] = 0
  all_tries (m ∷ ms) = tries m + all_tries ms

  abbrev pub timer_tries : List (ℕ × QueuedMessage) → ℕ
  timer_tries [] = 0
  timer_tries ((due, m) ∷ ts) = tries m + timer_tries ts

  abbrev pub tries_left : Dialer → ℕ
  tries_left s = all_tries s.message_queue + timer_tries s.timers

  abbrev pub after : Event → Dialer → Dialer
  after (next node now) s = process_next config node now s
  after (timers now) s = run_timers now s

  -- a message is tried
  abbrev pub attempt : Event → Dialer → ℕ
  attempt (next node now) s = if is_empty s.message_queue then 0 else 1
  attempt (timers now) s = 0

  -- How many messages are tried in the course of some events.
  abbrev pub attempts : List Event → Dialer → ℕ
  attempts [] s = 0
  attempts (event ∷ events) s = attempt event s + attempts events (after event s)

  all_tries-append :
      (ms ns : List QueuedMessage) → all_tries (ms ++ ns) ≡ all_tries ms + all_tries ns
  all_tries-append [] ns = omega arith
  all_tries-append (m ∷ ms) ns = let h = all_tries-append ms ns in omega (arith, h)

  timer_tries-append :
      (ts us : List (ℕ × QueuedMessage)) → timer_tries (ts ++ us) ≡ timer_tries ts + timer_tries us
  timer_tries-append [] us = omega arith
  timer_tries-append ((due, m) ∷ ts) us = let h = timer_tries-append ts us in omega (arith, h)

  tries_left-or_retry :
      (node : Node) (now : ℕ) (m : QueuedMessage) (r : Result (Unit {0})) (s : Dialer)
      → suc (tries_left (or_retry config node now m r s)) ≤ tries m + tries_left s
  unfolding retry_sending_message
  tries_left-or_retry node now m (ok u) s = omega arith
  tries_left-or_retry node now m (err e) s =
      elim (Bool-cases (leb (suc m.retries_count) config.message_sending_retries_max_count)) [
        | inr f ↦ rw f (omega arith)
        | inl f ↦
            let due = now + delay config node (suc m.retries_count) in
            let h =
              timer_tries-append s.timers
                ((due, record m { retries_count = suc m.retries_count }) ∷ []) in
            rw f (omega (arith, h, leb→le _ _ f))
      ]

  tries_left-process_message :
      (node : Node) (now : ℕ) (m : QueuedMessage) (s : Dialer)
      → suc (tries_left (process_message config node now m s)) ≤ tries m + tries_left s
  unfolding process_message
  tries_left-process_message node now m s =
      let (r, s') = send_queued config node m s in
      let w = ((Waits-send_queued s.message_queue s.timers config node m).given s (refl, refl)).1 in
      let h =
        tries_left-or_retry node now m (send_queued config node m s).0
          (send_queued config node m s).1 in
      let e = ap all_tries w.0 in let e' = ap timer_tries w.1 in omega (arith, h, e, e')

  all_tries-is_due :
      (now : ℕ) (ts : List (ℕ × QueuedMessage))
      → all_tries (map (λ t. t.1) (keep_if (is_due now) ts))
          + timer_tries (keep_if (λ t. not (is_due now t)) ts)
        ≡ timer_tries ts
  all_tries-is_due now [] = omega arith
  all_tries-is_due now ((due, m) ∷ ts) =
      let h = all_tries-is_due now ts in
      elim (Bool-cases (leb due now)) [
        | inl e ↦ rw e (omega (arith, h))
        | inr e ↦ rw e (omega (arith, h))
      ]

  tries_left-run_timers : (now : ℕ) (s : Dialer) → tries_left (run_timers now s) ≡ tries_left s
  unfolding run_timers
  tries_left-run_timers now s =
      let h = all_tries-is_due now s.timers in
      let k = all_tries-append s.message_queue (map (λ t. t.1) (keep_if (is_due now) s.timers)) in
      omega (arith, h, k)

  tries_left-process_next_of :
      (node : Node) (now : ℕ) (queue : List QueuedMessage) (s : Dialer)
      → s.message_queue ≡ queue
      → (if is_empty queue then 0 else 1) + tries_left (process_next_of config node now queue s)
        ≤ tries_left s
  unfolding process_next_of
  tries_left-process_next_of node now [] s h = omega arith
  tries_left-process_next_of node now (m ∷ queue) s h =
      let k = tries_left-process_message node now m (record s { message_queue = queue }) in
      let e = ap all_tries h in omega (arith, k, e)

  attempt-tries_left :
      (event : Event) (s : Dialer) → attempt event s + tries_left (after event s) ≤ tries_left s
  unfolding process_next
  attempt-tries_left (next node now) s = tries_left-process_next_of node now s.message_queue s refl
  attempt-tries_left (timers now) s = let h = tries_left-run_timers now s in omega (arith, h)

  -- Sending ends: a message is tried once and then again at most as often as the configured
  -- count. In the course of any events, whatever the node answers in each and whenever it happens,
  -- no more messages are tried than the ones that wait, each counted once and once more for each
  -- retry that is left to it.
  pub attempts-tries_left : (events : List Event) (s : Dialer) → attempts events s ≤ tries_left s
  attempts-tries_left [] s = omega arith
  attempts-tries_left (event ∷ events) s =
      let h = attempts-tries_left events (after event s) in
      let k = attempt-tries_left event s in omega (arith, h, k)
