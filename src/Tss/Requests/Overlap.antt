-- ===== src/Tss/Requests/Overlap.antt =====
-- Two calls of `sign` for a message that wait for the mutex at the same time.
use sign_protocols.Prelude.{
  ℕ, String, ◌≡◌, refl, append_assoc, ◌∙◌, ap, Option, none, List, [], ◌∷◌, ◌++◌, true,
}
use sign_protocols.Prelude.Maps.{lookup}
use sign_protocols.Tss.State.{Sign, Tss}
use sign_protocols.Tss.Queue.{get_sign, get_pending_sign}
use sign_protocols.Tss.Approved.{SignerHost}
use sign_protocols.Tss.Requests.{new_sign, process_pending, push_sign, sign_new, sign_once, sign}

module _ (host : SignerHost) where
  push_sign-alone :
      (x : Sign) (s : Tss)
      → get_pending_sign x.msg s ≡ none
      → (push_sign host x s).1 ≡ record s { signs = s.signs ++ x ∷ [] }
  unfolding push_sign process_pending get_pending_sign
  push_sign-alone x s h = rw h refl

  -- `sign` looks for the message before it waits for the mutex and not after: if the message is
  -- neither queued nor in the cache nor asked for by others, then two calls that come before either
  -- goes on both pass the tests (each is, from that state, the part after the wait), and when they
  -- have gone on, one after the other, the message stands twice in the queue.
  pub sign-twice :
      (msg : String) (callback callback' : ℕ) (chain_code chain_code' : String)
      (path path' : Option (List ℕ)) (s : Tss)
      → get_sign msg true s ≡ none
      → lookup msg s.sign_cache ≡ none
      → get_pending_sign msg s ≡ none
      → let x = new_sign host msg callback chain_code path in
        let y = new_sign host msg callback' chain_code' path' in
        (sign host msg callback chain_code path s ≡ push_sign host x s)
        × (sign host msg callback' chain_code' path' s ≡ push_sign host y s)
        × ((push_sign host y (push_sign host x s).1).1.signs ≡ s.signs ++ x ∷ y ∷ [])
  unfolding sign sign_once sign_new get_pending_sign
  sign-twice msg callback callback' chain_code chain_code' path path' s g c p =
      let x = new_sign host msg callback chain_code path in
      let y = new_sign host msg callback' chain_code' path' in
      (
        rw (g, c) refl,
        rw (g, c) refl,
        ap (λ s1. (push_sign host y s1).1.signs) (push_sign-alone x s p)
            ∙ ap (λ s1. s1.signs) (push_sign-alone y (record s { signs = s.signs ++ x ∷ [] }) p)
            ∙ append_assoc s.signs (x ∷ []) (y ∷ []),
      )
