-- ===== src/MultiSig/Turns.antt =====
-- Whose turn it is, and the peers with their ids: the turns of `MultiSigHandler`.
pub mod Lookups
pub mod Kept
use sign_protocols.Prelude.{
  ℕ, String, Option, none, some, List, [], ◌∷◌, Bool, map, length, is_empty, head?, keep_if,
  get_elem?, if◌then◌else◌, ◌==◌,
}
use sign_protocols.Exec.{Result, ok, err, ◌>>=◌, gets, lift, skip, raise}
use sign_protocols.Communicator.{get_index}
use sign_protocols.Detection.State.{ActiveGuard}
use sign_protocols.Detection.Active.{active_guards}
use sign_protocols.Tss.Turns.{turn_of, is_turn}
use sign_protocols.MultiSig.Data.{Signer, turn_time, multi_sig_payload_json}
use sign_protocols.MultiSig.Ergo.{ErgoLib}
use sign_protocols.MultiSig.State.{MultiSig, MultiSigHost, Method, on_comm, on_detection}
use mathlib.Core.Option

-- `keys[index].pub`; `none` is the index -1
unfoldable pub key_at : List String → Option ℕ → Result String
key_at guards_pk none = err "Cannot read properties of undefined"
key_at guards_pk (some i) = elim (get_elem? guards_pk i) [
  | none ↦ err "Cannot read properties of undefined"
  | some key ↦ ok key
]

abbrev pub peer_with : List ActiveGuard → String → Signer
peer_with active pub_key = record {
  id =
      Option.map (λ (guard : ActiveGuard). guard.peer_id)
        (head? (keep_if (λ (guard : ActiveGuard). guard.public_key == pub_key) active));
  pub_key = pub_key;
}

-- `map((peer) => peer.id).filter((id) => id !== undefined)`
abbrev pub ids_of : List Signer → List String
ids_of [] = []
ids_of (peer ∷ peers) = elim peer.id [ none ↦ ids_of peers | some id ↦ id ∷ ids_of peers ]

-- the peer id of the first active guard with the key of the turn
turn_peer : List ActiveGuard → Result String → Result String
turn_peer active (err e) = err e
turn_peer active (ok pub_key) =
    elim (head? (keep_if (λ (guard : ActiveGuard). guard.public_key == pub_key) active)) [
      | none ↦ err "Cannot read properties of undefined"
      | some guard ↦ ok guard.peer_id
    ]

module _ {E : ErgoLib} (host : MultiSigHost E) where
  unfoldable pub peers_with_ids : Method E (List Signer)
  peers_with_ids = do
    active ← on_detection (active_guards host.node)
    gets λ s. map (peer_with active) s.guards_pk

  -- NaN, when there are no peers, is `none`
  unfoldable pub get_current_turn_ind : MultiSig E → Option ℕ
  unfolding turn_of
  get_current_turn_ind s = turn_of host.now turn_time (length s.guards_pk)

  -- `try { … } catch (e) { return undefined }`
  or_undefined : Result String → Option String
  or_undefined (ok id) = some id
  or_undefined (err e) = none

  find_turn : Method E String
  unfolding turn_peer key_at get_current_turn_ind
  find_turn = do
    active ← on_detection (active_guards host.node)
    key ← gets λ s. key_at s.guards_pk (get_current_turn_ind s)
    lift (turn_peer active key)

  unfoldable pub get_current_turn_id : Method E (Option String)
  unfolding or_undefined find_turn
  get_current_turn_id s = let (r, s') = find_turn s in (ok (or_undefined r), s')

  unfoldable pub is_my_turn : Method E Bool
  unfolding get_current_turn_ind
  is_my_turn = do
    index ← on_comm (get_index host.enc)
    gets λ s. is_turn (get_current_turn_ind s) index

  unfoldable pub peers_must_be_initialized : Method E (Unit {0})
  peers_must_be_initialized s =
      if is_empty s.guards_pk
      then raise "Cannot proceed MultiSig action, public keys are not provided yet" s
      else skip s
