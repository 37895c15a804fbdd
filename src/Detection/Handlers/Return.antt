-- ===== src/Detection/Handlers/Return.antt =====
-- From `addNonce` to the approval that returns the nonce.
use sign_protocols.Prelude.{
  ℕ, zero, suc, ◌+◌, ◌*◌, ◌<◌, ◌≡◌, refl, Option, none, some, List, [], ◌∷◌, ◌++◌, Bool, true, any,
  arith, get_elem?, get_elem?-map, eq_refl,
}
use sign_protocols.Communicator.{get_date}
use sign_protocols.Detection.State.{Nonce, GuardInfo, GuardDetection, DetectionPayload, Host}
use sign_protocols.Detection.Nonces.{
  is_fresh, splice_stale, clear_info, push_nonce, clear_nonce, new_nonce, add_nonce,
}
use sign_protocols.Detection.Nonces.Freshness.{splice_stale-cons, add_nonce-zero, add_nonce-suc}
use sign_protocols.Detection.Handlers.{is_nonce}
use sign_protocols.Detection.Handlers.Approval.{IsAnswered}

any-append {ℓ} :
    {A : Type ℓ} (p : A → Bool) (xs : List A) (x : A) → p x ≡ true → any p (xs ++ x ∷ []) ≡ true
any-append p [] x h = ground arith
any-append p (y ∷ xs) x h = ground (arith, any-append p xs x h)

any-splice_stale :
    (date duration : ℕ) (p : Nonce → Bool) (nonces : List Nonce) (nonce : Nonce)
    → is_fresh date duration nonce ≡ true
    → p nonce ≡ true
    → any p (splice_stale date duration (nonces ++ nonce ∷ [])) ≡ true
any-splice_stale date duration p [] nonce f h =
    ground (arith, splice_stale-cons date duration nonce [])
any-splice_stale date duration p (n ∷ nonces) nonce f h = ground (
  arith,
  splice_stale-cons date duration n (nonces ++ nonce ∷ []),
  any-splice_stale date duration p nonces nonce f h,
  any-append p (n ∷ nonces) nonce h,
)

module _ {C : Type 0} (host later : Host) where
  pushed_entry :
      (s : GuardDetection C) (i : ℕ) (info : GuardInfo C)
      → get_elem? (clear_nonce host s).guards_info i ≡ some info
      → get_elem? (add_nonce host (some i) s).1.guards_info i
        ≡ some (push_nonce (new_nonce host s) info)
  pushed_entry s zero info e = (add_nonce-zero host s 0 info e).2
  pushed_entry s (suc k) info e = (add_nonce-suc host s k 0 info e (omega arith)).0

  message_valid_duration-add_nonce :
      (i : Option ℕ) (s : GuardDetection C)
      → (add_nonce host i s).1.message_valid_duration ≡ s.message_valid_duration
  unfolding add_nonce clear_nonce
  message_valid_duration-add_nonce none s = refl
  message_valid_duration-add_nonce (some zero) s = refl
  message_valid_duration-add_nonce (some (suc k)) s = ground arith

  -- A nonce that is sent to a guard can come back: in the state that `addNonce` leaves, before any
  -- other method is called, an approval that returns it within the valid duration is one that
  -- `handleApproveMessage` takes.
  pub IsAnswered-add_nonce :
      (payload : DetectionPayload) (i : ℕ) (s : GuardDetection C) (info : GuardInfo C)
      → get_elem? (clear_nonce host s).guards_info i ≡ some info
      → 1000 * get_date later.now < host.now + 1000 * s.message_valid_duration
      → payload.received_nonce ≡ some (host.random_bytes s.drawn)
      → IsAnswered later payload i (add_nonce host (some i) s).1
  unfolding clear_nonce
  IsAnswered-add_nonce payload i s info e soon back =
      let s' : GuardDetection C = (add_nonce host (some i) s).1 in
      let date : ℕ = get_date later.now in
      record {
        info = clear_info date s'.message_valid_duration (push_nonce (new_nonce host s) info);
        entry =
            get_elem?-map (clear_info date s'.message_valid_duration) s'.guards_info i
              (push_nonce (new_nonce host s) info) (pushed_entry s i info e);
        returned =
            any-splice_stale date s'.message_valid_duration (is_nonce payload.received_nonce)
              info.nonce (new_nonce host s)
              (ground (arith, message_valid_duration-add_nonce (some i) s))
              (ground (arith, back, eq_refl (host.random_bytes s.drawn)));
      }
