-- ===== src/Tss/Round.antt =====
-- The periodic work: `updateThreshold` and `update`.
pub mod Quiet
pub mod Once
pub mod Kept
pub mod Requesting
pub mod Asking
use sign_protocols.Prelude.{
  ℕ, zero, suc, ◌+◌, ◌/◌, String, Option, none, some, List, [], ◌∷◌, ◌++◌, Bool, not, ltb, eqb,
  length, take, replicate, is_empty, if◌then◌else◌,
}
use sign_protocols.Exec.{Result, ok, err, ◌>>=◌, ◌>>◌, skip, modifies, gets, for_each}
use sign_protocols.Communicator.{get_date, get_index, send_message, sign_payload}
use sign_protocols.Detection.State.{ActiveGuard, GuardDetection, set_need_guard_threshold}
use sign_protocols.Detection.Active.{active_guards}
use sign_protocols.Tss.State.{
  Sign, Request, SignPayload, Threshold, Tss, Method, on_comm, on_detection, meets,
  sign_payload_json, request, approve, request_message,
}
use sign_protocols.Tss.Turns.{get_guard_turn, is_turn, cleanup}
use sign_protocols.Tss.Approved.{SignerHost}
use sign_protocols.Tss.Requests.{send}

module _ {ℓ} {A : Type ℓ} where
  -- `array[index] = value`: a write past the end leaves holes between, which are `none`.
  unfoldable pub write : List (Option A) → ℕ → A → List (Option A)
  write [] zero v = some v ∷ []
  write [] (suc i) v = none ∷ write [] i v
  write (x ∷ xs) zero v = some v ∷ xs
  write (x ∷ xs) (suc i) v = x ∷ write xs i v

  -- an array's elements with their positions
  pub enumerate : ℕ → List A → List (ℕ × A)
  enumerate i [] = []
  enumerate i (x ∷ xs) = (i, x) ∷ enumerate (suc i) xs

  pub modify_at : ℕ → (A → A) → List A → List A
  modify_at i f [] = []
  modify_at zero f (x ∷ xs) = f x ∷ xs
  modify_at (suc i) f (x ∷ xs) = x ∷ modify_at i f xs

module _ (host : SignerHost) where
  set_threshold : Option ℕ → Tss → Tss
  set_threshold none s = s
  set_threshold (some t) s = record s {
    detection = set_need_guard_threshold (t + 1) s.detection;
    threshold = record { value = some (t + 1); expiry = host.node.now + s.threshold_ttl };
  }

  -- A failed request is caught and changes nothing.
  unfoldable pub update_threshold : Tss → Tss
  unfolding set_threshold
  update_threshold s =
      if ltb s.threshold.expiry host.node.now then set_threshold host.api.threshold s else s

  own_signature : String → List ActiveGuard → ℕ → ℕ → String
  own_signature msg guards index timestamp =
      sign_payload host.enc
        (approve (record { msg = msg; guards = guards; init_guard_index = index })) timestamp

  -- the sign with its request, and only this guard's signature
  with_request : List String → List ActiveGuard → ℕ → ℕ → Sign → Sign
  unfolding own_signature
  with_request pks guards index timestamp sign = record sign {
    request = some (record { guards = guards; index = index; timestamp = timestamp });
    signs =
        write (replicate (length pks) (some "")) index
          (own_signature sign.msg guards index timestamp);
  }

  -- one round of the loop over the queue, at the sign's position
  pub request_sign : List ActiveGuard → ℕ → ℕ × Sign → Method (Unit {0})
  unfolding with_request modify_at
  request_sign guards timestamp (position, sign) = if sign.posted then skip else do
    send host request_message (request sign.msg guards) [] timestamp
    index ← on_comm (get_index host.enc)
    modifies λ s. record s {
      signs = modify_at position (with_request s.guard_pks guards index timestamp) s.signs;
    }

  request_signs : List ActiveGuard → Method (Unit {0})
  unfolding request_sign enumerate
  request_signs guards s =
      let timestamp = get_date host.node.now in
      let round = timestamp / s.turn_duration in
      if eqb round s.last_update_round
      then skip s
      else for_each (enumerate 0 (take s.sign_per_round_limit s.signs))
          (request_sign guards timestamp) (record s { last_update_round = round })

  request_if_enough : List ActiveGuard → Method (Unit {0})
  request_if_enough guards s =
      if not (meets (length guards) s.threshold.value) then skip s else request_signs guards s

  my_turn : Method (Unit {0})
  my_turn = do
    modifies update_threshold
    guards ← on_detection (active_guards host.node)
    request_if_enough guards

  update_as : ℕ → Method (Unit {0})
  update_as index s =
      if not (is_turn (get_guard_turn host.node.now s) index)
      then skip s
      else if is_empty s.signs
      then skip s
      else my_turn s

  pub update : Method (Unit {0})
  update = do
    modifies (cleanup host.node.now)
    index ← on_comm (get_index host.enc)
    update_as index
