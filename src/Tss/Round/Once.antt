-- ===== src/Tss/Round/Once.antt =====
-- `update` asks once in a round.
use sign_protocols.Prelude.{
  ℕ, ◌/◌, ◌≡◌, ◌⊎◌, inl, inr, refl, sym, ap, ◌∙◌, some, List, [], take, length, eqb, is_empty,
  Bool-cases, arith,
}
use sign_protocols.Exec.{Exec, modifies}
use sign_protocols.Exec.Triples.{
  Gives, Leads, Anything, Answers-Anything, Gives-bind, Gives-modifies, Gives-skip, Gives-if,
  Gives-for_each, Leads-bind,
}
use sign_protocols.Communicator.{Communicator, get_date, get_index, send_message}
use sign_protocols.Communicator.Index.{outbox-get_index}
use sign_protocols.Detection.State.{ActiveGuard}
use sign_protocols.Detection.Active.{active_guards}
use sign_protocols.Tss.State.{
  Sign, SignPayload, Tss, on_comm, on_detection, meets, sign_payload_json, request, request_message,
}
use sign_protocols.Tss.Turns.{get_guard_turn, is_turn, cleanup}
use sign_protocols.Tss.Approved.{SignerHost}
use sign_protocols.Tss.Round.{
  enumerate, modify_at, with_request, request_sign, request_signs, request_if_enough,
  update_threshold, my_turn, update_as, update,
}
use sign_protocols.Tss.Round.Quiet.{update-quiet}

module _ (host : SignerHost) (s0 : Tss) where
  -- the round in which `update` is called
  abbrev round : ℕ
  round = get_date host.node.now / s0.turn_duration

  abbrev Asked : Tss → Type 0
  Asked s = (s.last_update_round ≡ round) × (s.turn_duration ≡ s0.turn_duration)

  abbrev Unasked : Tss → Type 0
  Unasked s = (s.outbox ≡ s0.outbox) × (s.turn_duration ≡ s0.turn_duration)

  -- nothing is sent, or the round is noted
  abbrev Noted : Tss → Type 0
  Noted s = (s.outbox ≡ s0.outbox) ⊎ Asked s

  Asked-on_comm :
      {A : Type 0} (m : Exec (Communicator SignPayload) A) → Gives Asked Anything (on_comm m)
  Asked-on_comm m = record { given = λ s a. (Answers-Anything (m s.comm).0, a) }

  Asked-request_sign :
      (guards : List ActiveGuard) (timestamp : ℕ) (x : ℕ × Sign)
      → Gives Asked Anything (request_sign host guards timestamp x)
  unfolding request_sign
  Asked-request_sign guards timestamp (position, sign) =
      Gives-if sign.posted (λ _. Gives-skip)
        λ _.
          Gives-bind
            (Asked-on_comm (
              send_message host.enc host.node.now request_message (request sign.msg guards) []
                (some timestamp)))
            λ _ _. Gives-bind (Asked-on_comm (get_index host.enc)) λ index _.
              Gives-modifies
                (λ s. record s {
                  signs =
                      modify_at position (with_request host s.guard_pks guards index timestamp)
                        s.signs;
                })
                λ s a. a

  request_signs-Noted :
      (guards : List ActiveGuard) → Leads Unasked Noted (request_signs host guards)
  unfolding request_signs
  request_signs-Noted guards = record {
    led = λ s (o, t).
        let timestamp = get_date host.node.now in
        let now = timestamp / s.turn_duration in
        elim (Bool-cases (eqb now s.last_update_round)) [
          | inl e ↦ rw e (inl o)
          | inr e ↦ rw e (
              inr
                ((Gives-for_each (enumerate 0 (take s.sign_per_round_limit s.signs))
                    (Asked-request_sign guards timestamp)).given
                  (record s { last_update_round = now }) (ap (λ d. timestamp / d) t, t)).1)
        ];
  }

  request_if_enough-Noted :
      (guards : List ActiveGuard) → Leads Unasked Noted (request_if_enough host guards)
  unfolding request_if_enough
  request_if_enough-Noted guards = record {
    led = λ s u. elim (Bool-cases (meets (length guards) s.threshold.value)) [
      | inl e ↦ rw e ((request_signs-Noted guards).led s u)
      | inr e ↦ rw e (inl u.0)
    ];
  }

  still : (s : Tss) → Unasked s → Noted s
  still s u = inl u.0

  Unasked-active_guards : Gives Unasked Anything (on_detection (active_guards host.node))
  Unasked-active_guards = record {
    given = λ s u. (Answers-Anything (active_guards host.node s.detection).0, u);
  }

  Unasked-update_threshold : Gives Unasked Anything (modifies (update_threshold host))
  unfolding update_threshold
  Unasked-update_threshold = Gives-modifies (update_threshold host) λ s u. ground (arith, u)

  my_turn-Noted : Leads Unasked Noted (my_turn host)
  unfolding my_turn
  my_turn-Noted =
      Leads-bind still Unasked-update_threshold
        λ _ _. Leads-bind still Unasked-active_guards λ guards _. request_if_enough-Noted guards

  update_as-Noted : (i : ℕ) → Leads Unasked Noted (update_as host i)
  unfolding update_as
  update_as-Noted i = record {
    led = λ s u. elim (Bool-cases (is_turn (get_guard_turn host.node.now s) i)) [
      | inr e ↦ rw e (inl u.0)
      | inl e ↦ elim (Bool-cases (is_empty s.signs)) [
        | inl f ↦ rw (e, f) (inl u.0)
        | inr f ↦ rw (e, f) (my_turn-Noted.led s u)
      ]
    ];
  }

  Unasked-cleanup : Gives Unasked Anything (modifies (cleanup host.node.now))
  unfolding cleanup
  Unasked-cleanup = Gives-modifies (cleanup host.node.now) λ s u. u

  Unasked-get_index : Gives Unasked Anything (on_comm (get_index host.enc))
  Unasked-get_index = record {
    given = λ s u. (
      Answers-Anything (get_index host.enc s.comm).0,
      (outbox-get_index host.enc s.comm ∙ u.0, u.1),
    );
  }

  update-Noted : Leads Unasked Noted (update host)
  unfolding update
  update-Noted =
      Leads-bind still Unasked-cleanup
        λ _ _. Leads-bind still Unasked-get_index λ i _. update_as-Noted i

-- `update` asks at most once in a round: if a call of it sent anything, then the next call in the
-- same round, whatever the clock and the threshold are then, sends nothing.
pub update-once :
    (host later : SignerHost) (s : Tss)
    → get_date later.node.now / s.turn_duration ≡ get_date host.node.now / s.turn_duration
    → ((update host s).1.outbox ≡ s.outbox)
      ⊎ ((update later (update host s).1).1.outbox ≡ (update host s).1.outbox)
update-once host later s same = elim ((update-Noted host s).led s (refl, refl)) [
  | inl e ↦ inl e
  | inr (r, t) ↦ inr (
      update-quiet later (update host s).1
        (inr (inr (ap (λ d. get_date later.node.now / d) t ∙ same ∙ sym r))))
]
