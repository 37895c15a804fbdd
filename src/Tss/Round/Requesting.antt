-- ===== src/Tss/Round/Requesting.antt =====
-- The requests of one round: the loop over the first signs of the queue.
use sign_protocols.Prelude.{
  ℕ, suc, ◌≡◌, sym, some, List, [], ◌∷◌, ◌++◌, not, arith, map, keep_if, Bool-cases, inl, inr,
}
use mathlib.Core.List.{append-nil, append_assoc}
use sign_protocols.Exec.{ok, for_each}
use sign_protocols.Communicator.{
  Communicator, Submission, get_date, get_index, send_message, signed_message, or_default,
}
use sign_protocols.Communicator.Index.{outbox-get_index, get_index-again, send_message-ok}
use sign_protocols.Detection.State.{ActiveGuard, detection_payload_json}
use sign_protocols.Tss.State.{Sign, SignPayload, Tss, sign_payload_json, request, request_message}
use sign_protocols.Tss.Approved.{SignerHost}
use sign_protocols.Tss.Round.{enumerate, request_sign}

-- the broadcast by which guard `i` asks for signatures of a sign
abbrev pub request_of : SignerHost → List ActiveGuard → ℕ → ℕ → Sign → Submission SignPayload
request_of host guards timestamp i sign = record {
  message =
      signed_message host.enc request_message (request sign.msg guards)
        (or_default (some timestamp) (get_date host.node.now)) i;
  peers = [];
}

-- the signs that are asked for
abbrev pub open_signs : List Sign → List Sign
open_signs signs = keep_if (λ sign. not sign.posted) signs

module _ (host : SignerHost) (guards : List ActiveGuard) (timestamp i : ℕ) where
  abbrev IsIndex : Tss → Type 0
  IsIndex s = (get_index host.enc s.comm).0 ≡ ok i

  request_sign-asks :
      (position : ℕ) (sign : Sign) (s : Tss)
      → IsIndex s
      → ((request_sign host guards timestamp (position, sign) s).0 ≡ ok tt)
        × IsIndex (request_sign host guards timestamp (position, sign) s).1
        × ((request_sign host guards timestamp (position, sign) s).1.outbox
            ≡ s.outbox ++ map (request_of host guards timestamp i) (open_signs (sign ∷ [])))
  unfolding request_sign
  request_sign-asks position sign s h = elim (Bool-cases sign.posted) [
    | inl p ↦ (ground arith, ground (arith, h), ground (arith, append-nil s.outbox))
    | inr p ↦
        let (sent, found, out) =
          send_message-ok host.enc s.comm host.node.now request_message (request sign.msg guards) []
            (some timestamp) i h in
        let c : Communicator SignPayload =
          (send_message host.enc host.node.now request_message (request sign.msg guards) []
            (some timestamp) s.comm).1 in
        let again = get_index-again host.enc c i found in
        let same = outbox-get_index host.enc c in
        (
          ground (arith, sent, found),
          ground (arith, sent, found, again),
          ground (arith, sent, found, out, same),
        )
  ]

  open_signs-cons :
      (sign : Sign) (signs : List Sign)
      → map (request_of host guards timestamp i) (open_signs (sign ∷ signs))
        ≡ map (request_of host guards timestamp i) (open_signs (sign ∷ []))
          ++ map (request_of host guards timestamp i) (open_signs signs)
  open_signs-cons sign signs = elim (Bool-cases sign.posted) [
    | inl p ↦ ground arith
    | inr p ↦ ground arith
  ]

  pub for_each-asks :
      (k : ℕ) (signs : List Sign) (s : Tss)
      → IsIndex s
      → (for_each (enumerate k signs) (request_sign host guards timestamp) s).1.outbox
        ≡ s.outbox ++ map (request_of host guards timestamp i) (open_signs signs)
  unfolding for_each enumerate
  for_each-asks k [] s h = sym (append-nil s.outbox)
  for_each-asks k (x ∷ signs) s h =
      let (done, found, out) = request_sign-asks k x s h in
      let s' : Tss = (request_sign host guards timestamp (k, x) s).1 in
      ground (
        arith,
        done,
        for_each-asks (suc k) signs s' found,
        out,
        open_signs-cons x signs,
        append_assoc s.outbox (map (request_of host guards timestamp i) (open_signs (x ∷ [])))
            (map (request_of host guards timestamp i) (open_signs signs)),
      )
