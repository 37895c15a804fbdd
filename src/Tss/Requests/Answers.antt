-- ===== src/Tss/Requests/Answers.antt =====
-- What a request makes this guard send.
use sign_protocols.Prelude.{
  ℕ, String, ◌≡◌, refl, ap, ◌∙◌, ◌⊎◌, inl, inr, Option, none, some, List, [], ◌∷◌, ◌++◌, Bool, true,
  false, arith, keep_if, Bool-cases, Option-cases,
}
use mathlib.Core.Path.{subst}
use sign_protocols.Exec.{ok, Result-value, for_each}
use sign_protocols.Communicator.{Submission, signed_message, or_default, get_date}
use sign_protocols.Communicator.Index.{send_message-sends}
use sign_protocols.Detection.State.{ActiveGuard}
use sign_protocols.Detection.Active.{active_guards}
use sign_protocols.Detection.Active.Membership.{active_guards-again}
use sign_protocols.Tss.State.{
  Sign, PendingSign, SignPayload, SignResult, Retry, Tss, Method, approve, cached, approve_message,
  cached_message, sign_payload_json,
}
use sign_protocols.Tss.Turns.{get_guard_turn, is_turn}
use sign_protocols.Tss.Queue.{get_sign}
use sign_protocols.Prelude.Maps.{lookup}
use sign_protocols.Tss.Approved.{SignerHost}
use sign_protocols.Tss.Requests.{
  is_unknown, is_invalid, approval, handle_request_message, answer_request, answer_valid,
  answer_queued, approve_if_known, register_unknown, get_unknown_guards, get_invalid_guards,
  store_pending,
}

-- The one submission of a payload to the guard that asked.
abbrev pub reply_to : SignerHost → String → SignPayload → Retry → ℕ → Submission SignPayload
reply_to host kind payload r i = record {
  message =
      signed_message host.enc kind payload (or_default (some r.timestamp) (get_date host.node.now))
        i;
  peers = r.sender ∷ [];
}

-- What the answer to a request does to the messages sent, from the state `s`: nothing; or the
-- signature from the cache; or an approval, if the message is in the queue and not posted and all
-- guards of the request are known.
pub data Answer (host : SignerHost) (s : Tss) (r : Retry) (mine : List ActiveGuard)
    (out : List (Submission SignPayload)) : Type 0 where
  silent : out ≡ s.outbox → Answer host s r mine out
  sends_cached :
      (i : ℕ) (result : SignResult)
      → lookup r.msg s.sign_cache ≡ some result
      → out ≡ s.outbox ++ reply_to host cached_message (cached r.msg result) r i ∷ []
      → Answer host s r mine out
  approves :
      (i : ℕ) (sign : Sign)
      → lookup r.msg s.sign_cache ≡ none
      → get_sign r.msg false s ≡ some sign
      → keep_if (is_unknown mine) r.guards ≡ []
      → out ≡ s.outbox ++ reply_to host approve_message (approve (approval r)) r i ∷ []
      → Answer host s r mine out

Answer-looked :
    (host : SignerHost) (r : Retry) (mine : List ActiveGuard) (s : Tss)
    (out : List (Submission SignPayload))
    → Answer host (record s { detection = (active_guards host.node s.detection).1 }) r mine out
    → Answer host s r mine out
unfolding get_sign
Answer-looked host r mine s out (silent e) = silent e
Answer-looked host r mine s out (sends_cached i result e f) = sends_cached i result e f
Answer-looked host r mine s out (approves i sign e q known f) = approves i sign e q known f

module _ (host : SignerHost) where
  comm-for_each :
      (guards : List ActiveGuard) (body : ActiveGuard → Method (Unit {0})) (s : Tss)
      → ((g : ActiveGuard) (t : Tss) → (body g t).1.comm ≡ t.comm)
      → (for_each guards body s).1.comm ≡ s.comm
  unfolding for_each
  comm-for_each [] body s h = refl
  comm-for_each (g ∷ gs) body s h = elim (Result-value (body g s).0) [
    | inl (u, e) ↦ ground (arith, h g s, comm-for_each gs body (body g s).1 h)
    | inr (x, e) ↦ ground (arith, h g s)
  ]

  comm-register_unknown :
      (r : Retry) (b : Bool) (unknown : List ActiveGuard) (s : Tss)
      → (register_unknown host r b unknown s).1.comm ≡ s.comm
  unfolding register_unknown
  comm-register_unknown r false unknown s = refl
  comm-register_unknown r true unknown s = comm-for_each unknown _ s (λ g t. refl)

  approve_if_known-sends :
      (r : Retry) (unknown : List ActiveGuard) (s : Tss)
      → ((approve_if_known host r unknown s).1.outbox ≡ s.outbox)
        ⊎ ((i : ℕ) × (unknown ≡ [])
            × ((approve_if_known host r unknown s).1.outbox
                ≡ s.outbox ++ reply_to host approve_message (approve (approval r)) r i ∷ []))
  unfolding approve_if_known
  approve_if_known-sends r (g ∷ gs) s = inl refl
  approve_if_known-sends r [] s =
      elim (send_message-sends host.enc s.comm host.node.now approve_message (approve (approval r))
        (r.sender ∷ []) (some r.timestamp)) [ inl e ↦ inl e | inr (i, e, f) ↦ inr (i, refl, f) ]

  comm-store_pending :
      (r : Retry) (o : Option PendingSign) (s : Tss) → (store_pending host r o s).comm ≡ s.comm
  unfolding store_pending
  comm-store_pending r none s = refl
  comm-store_pending r (some old) s = refl

  answer_queued-sends :
      (r : Retry) (b : Bool) (sign : Option Sign) (s : Tss) (mine : List ActiveGuard)
      → (active_guards host.node s.detection).0 ≡ ok mine
      → ((answer_queued host r b sign s).1.outbox ≡ s.outbox)
        ⊎ ((i : ℕ) × (queued : Sign) × (sign ≡ some queued)
            × (keep_if (is_unknown mine) r.guards ≡ [])
            × ((answer_queued host r b sign s).1.outbox
                ≡ s.outbox ++ reply_to host approve_message (approve (approval r)) r i ∷ []))
  unfolding answer_queued get_unknown_guards
  answer_queued-sends r b none s mine h = inl (ap (λ c. c.outbox) (comm-store_pending r _ s))
  answer_queued-sends r b (some queued) s mine h =
      let looked : Tss = record s { detection = (active_guards host.node s.detection).1 } in
      let unknown : List ActiveGuard = keep_if (is_unknown mine) r.guards in
      let registered = register_unknown host r b unknown looked in
      let same = comm-register_unknown r b unknown looked in
      elim (Result-value registered.0) [
        | inr (x, e) ↦ inl (ground (arith, same))
        | inl (u, e) ↦ elim (approve_if_known-sends r unknown registered.1) [
          | inl f ↦ inl (ground (arith, same))
          | inr (i, known, f) ↦ inr (i, queued, refl, known, ground (arith, same))
        ]
      ]

  abbrev pub invalid_in : List ActiveGuard → Retry → List ActiveGuard
  invalid_in mine r = keep_if (is_invalid mine) r.guards

  answer_request-Answer :
      (r : Retry) (b : Bool) (invalid : List ActiveGuard) (s : Tss) (mine : List ActiveGuard)
      → (active_guards host.node s.detection).0 ≡ ok mine
      → Answer host s r mine (answer_request host r b invalid s).1.outbox
  unfolding answer_request answer_valid
  answer_request-Answer r b (g ∷ gs) s mine h = silent refl
  answer_request-Answer r b [] s mine h = elim (Option-cases (lookup r.msg s.sign_cache)) [
    | inr (result, e) ↦
        elim (send_message-sends host.enc s.comm host.node.now cached_message (cached r.msg result)
          (r.sender ∷ []) (some r.timestamp)) [
            | inl f ↦ silent (ground arith)
            | inr (i, f, g) ↦ sends_cached i result e (ground arith)
          ]
    | inl e ↦ elim (answer_queued-sends r b (get_sign r.msg false s) s mine h) [
      | inl f ↦ silent (ground arith)
      | inr (i, sign, q, known, f) ↦ approves i sign e q known (ground arith)
    ]
  ]

  answer_request-invalid :
      (r : Retry) (b : Bool) (g : ActiveGuard) (gs : List ActiveGuard) (s : Tss)
      → (answer_request host r b (g ∷ gs) s).1.outbox ≡ s.outbox
  unfolding answer_request
  answer_request-invalid r b g gs s = refl

  -- A request makes this guard submit at most one message of its own (the register messages that it
  -- may make its detection send to unknown guards are the detection's), and only if it is the sender's turn and no
  -- guard of the request is known under another peer id: the signature from the cache, or, with
  -- none there, an approval of a message that is in the queue and not posted, all of whose guards
  -- are known. `mine` is what `activeGuards` answers.
  pub handle_request_message-Answer :
      (r : Retry) (b : Bool) (s : Tss) (mine : List ActiveGuard)
      → (active_guards host.node s.detection).0 ≡ ok mine
      → ((handle_request_message host r b s).1.outbox ≡ s.outbox)
        ⊎ ((is_turn (get_guard_turn host.node.now s) r.guard_index ≡ true)
            × (invalid_in mine r ≡ [])
            × Answer host s r mine (handle_request_message host r b s).1.outbox)
  unfolding handle_request_message get_invalid_guards
  handle_request_message-Answer r b s mine h =
      elim (Bool-cases (is_turn (get_guard_turn host.node.now s) r.guard_index)) [
        | inr t ↦ inl (ground arith)
        | inl t ↦ elim (answered (invalid_in mine r) refl) [
          | inl f ↦ inl (ground arith)
          | inr (e, a) ↦ inr (t, e, subst (Answer host s r mine) (ground arith) a)
        ]
      ]
    where
      looked : Tss
      looked = record s { detection = (active_guards host.node s.detection).1 }

      answered :
          (invalid : List ActiveGuard)
          → invalid_in mine r ≡ invalid
          → ((answer_request host r b (invalid_in mine r) looked).1.outbox ≡ s.outbox)
            ⊎ ((invalid_in mine r ≡ [])
                × Answer host s r mine
                    (answer_request host r b (invalid_in mine r) looked).1.outbox)
      answered (g ∷ gs) e = inl (
          ap (λ l. (answer_request host r b l looked).1.outbox) e
          ∙ answer_request-invalid r b g gs looked)
      answered [] e = inr (
        e,
        Answer-looked host r mine s _ (
            answer_request-Answer r b (invalid_in mine r) looked mine
              (ap (λ p. p.0) (active_guards-again host.node s.detection mine h))),
      )
