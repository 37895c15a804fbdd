-- ===== src/Detection/Nonces/Freshness.antt =====
-- `clearNonce` and `addNonce` against what they are for.
use sign_protocols.Prelude.{
  ℕ, suc, ◌≤◌, ◌≡◌, ◌≢◌, refl, none, some, List, [], ◌∷◌, true, arith, length, get_elem?,
  get_elem?-map, get_elem?-modify_self, get_elem?-modify_ne, keep_if, Bool-cases, Option-cases, inl,
  inr, if◌then◌else◌,
}
use sign_protocols.Exec.{ok}
use sign_protocols.Detection.State.{Nonce, GuardInfo, GuardDetection, Host}
use sign_protocols.Detection.Nonces.{
  find_index, splice_front, is_fresh, splice_stale, push_nonce, clear_nonce, new_nonce, add_nonce,
}

-- Nonces are pushed at the end, so that the oldest comes first.
abbrev pub IsOldestFirst : List Nonce → Type 0
IsOldestFirst [] = Unit
IsOldestFirst (n ∷ []) = Unit
IsOldestFirst (n ∷ m ∷ ns) = (n.timestamp ≤ m.timestamp) × IsOldestFirst (m ∷ ns)

splice_front_all {ℓ} : {A : Type ℓ} (xs : List A) → splice_front (length xs) xs ≡ []
unfolding splice_front
splice_front_all [] = refl
splice_front_all (x ∷ xs) = splice_front_all xs

pub splice_stale-cons :
    (date duration : ℕ) (n : Nonce) (ns : List Nonce)
    → splice_stale date duration (n ∷ ns)
      ≡ (if is_fresh date duration n then n ∷ ns else splice_stale date duration ns)
unfolding splice_stale find_index splice_front
splice_stale-cons date duration n ns = elim (Bool-cases (is_fresh date duration n)) [
  | inl e ↦ ground arith
  | inr e ↦ elim (Option-cases (find_index (is_fresh date duration) ns)) [
    | inl f ↦ ground arith
    | inr (i, f) ↦ ground arith
  ]
]

pub splice_stale-nil : (date duration : ℕ) → splice_stale date duration [] ≡ []
unfolding splice_stale find_index splice_front
splice_stale-nil date duration = refl

fresh_after :
    (date duration : ℕ) (n : Nonce) (ns : List Nonce)
    → IsOldestFirst (n ∷ ns)
    → is_fresh date duration n ≡ true
    → keep_if (is_fresh date duration) ns ≡ ns
fresh_after date duration n [] o h = refl
fresh_after date duration n (m ∷ ns) o h = ground (arith, fresh_after date duration m ns o.1)

-- If a guard's nonces stand oldest first, then what the splice of `clearNonce` leaves are exactly
-- the nonces that are not timed out.
pub splice_stale-keep_if :
    (date duration : ℕ) (nonces : List Nonce)
    → IsOldestFirst nonces
    → splice_stale date duration nonces ≡ keep_if (is_fresh date duration) nonces
splice_stale-keep_if date duration [] o = unfold splice_stale find_index splice_front in refl
splice_stale-keep_if date duration (n ∷ []) o =
    ground (arith, splice_stale-cons date duration n [], splice_stale-keep_if date duration [] tt)
splice_stale-keep_if date duration (n ∷ m ∷ ns) o = ground (
  arith,
  splice_stale-cons date duration n (m ∷ ns),
  splice_stale-keep_if date duration (m ∷ ns) o.1,
  fresh_after date duration n (m ∷ ns) o,
)

module _ {C : Type 0} (host : Host) where
  -- `addNonce` for guard 0 is `addNonce` for all guards: the new nonce is pushed to the nonces of
  -- every guard, so that an approval with it is taken from any of them.
  pub add_nonce-zero :
      (s : GuardDetection C) (j : ℕ) (info : GuardInfo C)
      → get_elem? (clear_nonce host s).guards_info j ≡ some info
      → (add_nonce host (some 0) s ≡ add_nonce host none s)
        × ((add_nonce host (some 0) s).0 ≡ ok (host.random_bytes s.drawn))
        × (get_elem? (add_nonce host (some 0) s).1.guards_info j
            ≡ some (push_nonce (new_nonce host s) info))
  unfolding add_nonce clear_nonce
  add_nonce-zero s j info h = (refl, refl, get_elem?-map (push_nonce (new_nonce host s)) _ j info h)

  -- For any other guard `addNonce` touches that guard alone: its new nonce is pushed to the nonces
  -- of guard `k + 1`, and every other guard's entry is as `clearNonce` leaves it.
  pub add_nonce-suc :
      (s : GuardDetection C) (k j : ℕ) (info : GuardInfo C)
      → get_elem? (clear_nonce host s).guards_info (suc k) ≡ some info
      → suc k ≢ j
      → let s' = (add_nonce host (some (suc k)) s).1 in
        (get_elem? s'.guards_info (suc k) ≡ some (push_nonce (new_nonce host s) info))
        × (get_elem? s'.guards_info j ≡ get_elem? (clear_nonce host s).guards_info j)
  unfolding add_nonce clear_nonce
  add_nonce-suc s k j info h d =
      let infos = (clear_nonce host s).guards_info in
      (
        ground (arith, get_elem?-modify_self infos (suc k) (push_nonce (new_nonce host s)) info),
        ground (arith, get_elem?-modify_ne infos (suc k) j (push_nonce (new_nonce host s)) d),
      )
