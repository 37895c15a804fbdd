-- ===== src/Detection/Reachable.antt =====
-- What holds of every state that a guard's detection comes to, in whatever order messages arrive
-- and the guard's own work is done, each step with its own clock.
use sign_protocols.Prelude.{
  ℕ, zero, suc, ◌+◌, String, ◌≡◌, Option, some, List, [], ◌∷◌, map, arith, get_elem?,
}
use sign_protocols.Communicator.{CommunicationMessage}
use sign_protocols.Detection.State.{
  GuardInfo, GuardDetection, DetectionPayload, Host, create, set_need_guard_threshold,
}
use sign_protocols.Detection.Active.{active_guards}
use sign_protocols.Detection.Update.{init, update, change_pks}
use sign_protocols.Detection.Update.Placed.{init-IsAligned, update-IsAligned, change_pks-IsAligned}
use sign_protocols.Detection.Handlers.{receive}
use sign_protocols.Detection.Handlers.Placed.{receive-IsAligned}
use sign_protocols.Detection.Register.{register}
use sign_protocols.Detection.Register.Placed.{register-IsAligned}
use sign_protocols.Detection.Places.{
  place, numbered, IsAligned, create-IsAligned, active_guards-IsAligned,
}

module _ {C : Type 0} where
  -- one call of a method of the class, at any time
  pub data Step (s : GuardDetection C) : GuardDetection C → Type 0 where
    inits : (host : Host) → Step s (init host s).1
    updates : (host : Host) → Step s (update host s).1
    looks : (host : Host) → Step s (active_guards host s).1
    receives :
        (host : Host) (msg : Option (CommunicationMessage DetectionPayload)) (peer : String)
        → Step s (receive host msg peer s).1
    registers :
        (host : Host) (peer pk : String) (callback : C)
        → Step s (register host peer pk callback s).1
    changes : (host : Host) (pks : List String) → Step s (change_pks host pks s).1
    needs : (n : ℕ) → Step s (set_need_guard_threshold n s)

  -- the states that come from a constructor's
  pub data Reachable : GuardDetection C → Type 0 where
    created : (pks : List String) (a h v : Option ℕ) → Reachable (create pks a h v)
    after : (s s' : GuardDetection C) → Reachable s → Step s s' → Reachable s'

  IsAligned-Step : (s s' : GuardDetection C) → Step s s' → IsAligned s → IsAligned s'
  unfolding set_need_guard_threshold
  IsAligned-Step s _ (inits host) a = (init-IsAligned host).kept s a
  IsAligned-Step s _ (updates host) a = (update-IsAligned host).kept s a
  IsAligned-Step s _ (looks host) a = (active_guards-IsAligned host).kept s a
  IsAligned-Step s _ (receives host msg peer) a = (receive-IsAligned host msg peer).kept s a
  IsAligned-Step s _ (registers host peer pk callback) a =
      (register-IsAligned host peer pk callback).kept s a
  IsAligned-Step s _ (changes host pks) a = change_pks-IsAligned host pks s
  IsAligned-Step s _ (needs n) a = a

  -- In every state that is reached, the entries stand beside the keys: as many as there are keys,
  -- and the entry at each place has the key that stands there and that place as its index.
  pub Reachable-IsAligned : (s : GuardDetection C) → Reachable s → IsAligned s
  Reachable-IsAligned _ (created pks a h v) = create-IsAligned C pks a h v
  Reachable-IsAligned _ (after s s' r step) = IsAligned-Step s s' step (Reachable-IsAligned s r)

  entry_of_numbered :
      (k : ℕ) (infos : List (GuardInfo C)) (pks : List String) (i : ℕ) (info : GuardInfo C)
      → map place infos ≡ numbered k pks
      → get_elem? infos i ≡ some info
      → (get_elem? pks i ≡ some info.public_key) × (info.index ≡ k + i)
  entry_of_numbered k [] pks i info a e = cc
  entry_of_numbered k (x ∷ infos) [] i info a e = cc
  entry_of_numbered k (x ∷ infos) (pk ∷ pks) zero info a e = ground (arith, a, e)
  entry_of_numbered k (x ∷ infos) (pk ∷ pks) (suc i) info a e =
      ground (arith, entry_of_numbered (suc k) infos pks i info)

  -- In every state that is reached, the entry that stands at `i` is the entry of the guard whose key
  -- stands at `i`, and names `i` as that guard's index.
  pub Reachable-entry :
      (s : GuardDetection C) (i : ℕ) (info : GuardInfo C)
      → Reachable s
      → get_elem? s.guards_info i ≡ some info
      → (get_elem? s.guard_pks i ≡ some info.public_key) × (info.index ≡ i)
  Reachable-entry s i info r e =
      ground
        (arith, entry_of_numbered 0 s.guards_info s.guard_pks i info (Reachable-IsAligned s r) e)
