-- ===== src/Detection/Nonces.antt =====
-- The nonces that a guard has sent and waits for: `addNonce` and `clearNonce`.
pub mod Freshness
use sign_protocols.Prelude.{
  ℕ, zero, suc, ◌+◌, ◌*◌, String, Option, none, some, List, [], ◌∷◌, ◌++◌, Bool, true, false, map,
  ltb, length, get_elem?, modify, if◌then◌else◌,
}
use sign_protocols.Exec.{Result, ok, err, ◌>>=◌}
use sign_protocols.Communicator.{get_date}
use sign_protocols.Detection.State.{Nonce, GuardInfo, GuardDetection, Host, Method}
use mathlib.Core.Option

module _ {ℓ} {A : Type ℓ} where
  -- `array.findIndex(test)`, where `none` is -1
  pub find_index : (A → Bool) → List A → Option ℕ
  find_index p [] = none
  find_index p (x ∷ xs) =
      let later = find_index p xs in if p x then some 0 else Option.map suc later

  -- what `array.splice(0, n)` leaves
  pub splice_front : ℕ → List A → List A
  splice_front zero xs = xs
  splice_front (suc n) [] = []
  splice_front (suc n) (x ∷ xs) = splice_front n xs

-- `nonce.timestamp > getDate() - messageValidDuration`, where a nonce's time is in milliseconds
abbrev pub is_fresh : ℕ → ℕ → Nonce → Bool
is_fresh date duration nonce = ltb (1000 * date) (nonce.timestamp + 1000 * duration)

unfoldable pub splice_stale : ℕ → ℕ → List Nonce → List Nonce
unfolding find_index splice_front
splice_stale date duration nonces = elim (find_index (is_fresh date duration) nonces) [
  | none ↦ splice_front (length nonces) nonces
  | some i ↦ splice_front i nonces
]

module _ {C : Type 0} where
  abbrev pub clear_info : ℕ → ℕ → GuardInfo C → GuardInfo C
  clear_info date duration info = record info { nonce = splice_stale date duration info.nonce }

  abbrev pub push_nonce : Nonce → GuardInfo C → GuardInfo C
  push_nonce nonce info = record info { nonce = info.nonce ++ nonce ∷ [] }

module _ {C : Type 0} (host : Host) where
  unfoldable pub clear_nonce : GuardDetection C → GuardDetection C
  clear_nonce s = record s {
    guards_info = map (clear_info (get_date host.now) s.message_valid_duration) s.guards_info;
  }

  abbrev pub new_nonce : GuardDetection C → Nonce
  new_nonce s = record { bytes = host.random_bytes s.drawn; timestamp = host.now }

  abbrev pub draw : GuardDetection C → GuardDetection C
  draw s = record s { drawn = suc s.drawn }

  -- `if (index)`: an index of zero counts as absent.
  store_nonce : Option ℕ → Nonce → Method C String
  store_nonce (some (suc k)) nonce s = elim (get_elem? s.guards_info (suc k)) [
    | none ↦ (err "TypeError", s)
    | some info ↦
        (ok nonce.bytes, record s { guards_info = modify s.guards_info (suc k) (push_nonce nonce) })
  ]
  store_nonce _ nonce s =
      (ok nonce.bytes, record s { guards_info = map (push_nonce nonce) s.guards_info })

  unfoldable pub add_nonce : Option ℕ → Method C String
  unfolding store_nonce
  add_nonce index s =
      let cleared = clear_nonce s in store_nonce index (new_nonce cleared) (draw cleared)
