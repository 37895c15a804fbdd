-- ===== src/Detection/Register.antt =====
-- Registering one guard on demand: `register` and `registerPromised`.
pub mod Placed
use sign_protocols.Prelude.{
  ℕ, ◌++◌, String, Option, none, some, [], ◌∷◌, Bool, true, false, not, ◌||◌, get_elem?, modify,
  index_of, if◌then◌else◌, ◌==◌,
}
use sign_protocols.Exec.{Result, ok, err, handled, ◌>>◌, modifies, raise}
use sign_protocols.Communicator.{get_date}
use sign_protocols.Detection.State.{GuardInfo, GuardDetection, Host, Method, register_message, fire}
use sign_protocols.Detection.Nonces.{clear_nonce, new_nonce, push_nonce, draw}
use sign_protocols.Detection.Active.{is_active}
use sign_protocols.Detection.Update.{send}

module _ {C : Type 0} where
  -- `try { … } catch (e) { handler }`
  on_error : Method C (Unit {0}) → (GuardDetection C → GuardDetection C) → Method C (Unit {0})
  on_error m handler s = let (r, s') = m s in (ok tt, handled handler r s')

  abbrev push_callback : C → GuardInfo C → GuardInfo C
  push_callback callback info = record info { callback = info.callback ++ callback ∷ [] }

module _ {C : Type 0} (host : Host) where
  request_registration : String → ℕ → C → Method C (Unit {0})
  request_registration peer_id i callback s =
      let nonce = new_nonce host s in
      let pushed = record (draw host s) {
        guards_info =
            modify s.guards_info i (λ info. push_nonce nonce (push_callback callback info));
      } in
      (do
        send host register_message (some nonce.bytes) none (peer_id ∷ [])
        modifies (clear_nonce host))
        pushed

  register_at : String → ℕ → C → Option (GuardInfo C) → Method C (Unit {0})
  unfolding request_registration on_error
  register_at peer_id i callback none s = raise "TypeError" s
  register_at peer_id i callback (some info) s =
      if info.peer_id == "" || not (is_active (get_date host.now) s.active_timeout info)
      then on_error (request_registration peer_id i callback)
          (fire callback false (some "Error while registering guard")) s
      else if not (info.peer_id == peer_id)
      then (ok tt, fire callback false (some "PeerId is not the same") s)
      else (ok tt, fire callback true none s)

  register_found : String → C → Option ℕ → Method C (Unit {0})
  unfolding register_at
  register_found peer_id callback none s = (ok tt, fire callback false (some "Guard not found") s)
  register_found peer_id callback (some i) s =
      register_at peer_id i callback (get_elem? s.guards_info i) s

  unfoldable pub register : String → String → C → Method C (Unit {0})
  unfolding register_found
  register peer_id public_key callback s =
      register_found peer_id callback (index_of public_key s.guard_pks) s

-- How a call of the callback of `registerPromised` settles its promise: `resolve` comes first, and
-- the `reject` after it is then ignored. The message of `new Error(undefined)` is empty.
pub settle_registration : Bool → Option String → Result Bool
settle_registration true reason = ok true
settle_registration false none = err ""
settle_registration false (some reason) = err reason
