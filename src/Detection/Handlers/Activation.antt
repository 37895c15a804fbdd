-- ===== src/Detection/Handlers/Activation.antt =====
-- From an approval to `activeGuards`.
use mathlib.Core.List.{Mem, mem-append_left, mem-map_of_mem}
use mathlib.Core.List.Perm
use mathlib.Core.Path.{subst}
use sign_protocols.Prelude.{
  ℕ, ◌+◌, ◌<◌, String, ◌≡◌, ◌≢◌, refl, Option, none, some, List, [], ◌∷◌, true, false, arith,
  Option-cases, inl, inr, eq_iff,
}
use sign_protocols.Exec.{ok}
use sign_protocols.Communicator.{get_date}
use sign_protocols.Detection.State.{
  GuardInfo, ActiveGuard, GuardDetection, DetectionPayload, Host, detection_payload_json,
}
use sign_protocols.Detection.Nonces.{clear_nonce}
use sign_protocols.Detection.Active.{is_active, to_active, my_active_guard, active_guards}
use sign_protocols.Detection.Active.Membership.{active_guards-listed}
use sign_protocols.Detection.Active.Listed.{mem-keep_if}
use sign_protocols.Detection.Handlers.{
  accept_approval, answer, check_approval, handle_approve_message,
}
use sign_protocols.Detection.Handlers.Approval.{IsAnswered, heard_of, handle_approve_message-takes}

module _ {C : Type 0} (host : Host) where
  active_timeout-check_approval :
      (t : ℕ) (payload : DetectionPayload) (sender : String) (i : ℕ) (info : Option (GuardInfo C))
      (s : GuardDetection C)
      → s.active_timeout ≡ t
      → (check_approval host payload sender i info s).1.active_timeout ≡ t
  unfolding check_approval accept_approval answer
  active_timeout-check_approval t payload sender i none s h = h
  active_timeout-check_approval t payload sender i (some info) s h =
      elim (Option-cases payload.nonce) [ inl n ↦ ground arith | inr (text, n) ↦ ground arith ]

  active_timeout-handle_approve_message :
      (payload : DetectionPayload) (sender : String) (i : ℕ) (s : GuardDetection C)
      → (handle_approve_message host payload sender i s).1.active_timeout ≡ s.active_timeout
  unfolding handle_approve_message clear_nonce
  active_timeout-handle_approve_message payload sender i s =
      active_timeout-check_approval s.active_timeout payload sender i _ (clear_nonce host s) refl

  -- A guard that returned a nonce is active in the state after its approval was handled: if
  -- `activeGuards` is called in that state at any time before the active timeout has passed, and
  -- answers, it lists the guard under the peer id that the approval came from, with the key and the
  -- index of its entry. The peer id must not be empty.
  pub approved_is_active :
      (later : Host) (payload : DetectionPayload) (sender : String) (i : ℕ) (s : GuardDetection C)
      (guards : List ActiveGuard) (a : IsAnswered host payload i s)
      → sender ≢ ""
      → get_date later.now < get_date host.now + s.active_timeout
      → (active_guards later (handle_approve_message host payload sender i s).1).0 ≡ ok guards
      → Mem
          (record {
            key_first = false;
            peer_id = sender;
            public_key = a.info.public_key;
            index = a.info.index;
          })
          guards
  approved_is_active later payload sender i s guards a named soon listed =
      elim (handle_approve_message-takes host payload sender i s) [
        | inr (refused, e) ↦ absurd (refused a)
        | inl (b, entry, others, calls) ↦
            let s' : GuardDetection C = (handle_approve_message host payload sender i s).1 in
            let info : GuardInfo C = heard_of sender (get_date host.now) b.info in
            let active : is_active (get_date later.now) s'.active_timeout info ≡ true =
              ground (
                arith,
                eq_iff sender "",
                active_timeout-handle_approve_message payload sender i s,
              ) in
            let same : b.info ≡ a.info = ground (arith, a.entry, b.entry) in
            let (k, index, p) = active_guards-listed later s' guards listed in
            let m : Mem (to_active info) guards = (Perm.mem_iff p).1 (
              mem-append_left (my_active_guard later k ∷ []) (
                mem-map_of_mem to_active (
                  mem-keep_if (is_active (get_date later.now) s'.active_timeout) s'.guards_info i
                    info entry active))) in
            subst
              (λ (x : GuardInfo C).
                Mem
                  (record {
                    key_first = false;
                    peer_id = sender;
                    public_key = x.public_key;
                    index = x.index;
                  })
                  guards)
              same m
      ]
