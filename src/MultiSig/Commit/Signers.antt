-- ===== src/MultiSig/Commit/Signers.antt =====
-- The signers in an `initiateSign` message: indices on the wire, keys on both sides.
use sign_protocols.Prelude.{
  ℕ, String, ◌≡◌, ◌↔◌, refl, none, some, List, [], ◌∷◌, true, false, any, arith, inl, inr, All,
  index_of, Option-cases, ◌==◌,
}
use sign_protocols.Exec.{ok, Result-value}
use sign_protocols.Communicator.Index.{get_elem?-index_of}
use sign_protocols.MultiSig.Turns.{key_at}
use sign_protocols.MultiSig.Signing.{keys_at}
use sign_protocols.MultiSig.Commit.{inds_of}

-- the key is one of the guards'
abbrev pub IsListed : List String → String → Type 0
IsListed guards_pk key = any (λ k. k == key) guards_pk ≡ true

index_of-IsListed :
    (key : String) (guards_pk : List String)
    → index_of key guards_pk ≡ none
    → any (λ k. k == key) guards_pk ≡ false
index_of-IsListed key [] h = refl
index_of-IsListed key (k ∷ guards_pk) h = elim (Option-cases (index_of key guards_pk)) [
  | inl e ↦ ground (arith, h, index_of-IsListed key guards_pk)
  | inr (i, e) ↦ ground (arith, h, e)
]

IsListed-index_of :
    (key : String) (guards_pk : List String) (i : ℕ)
    → index_of key guards_pk ≡ some i
    → IsListed guards_pk key
IsListed-index_of key [] i h = cc
IsListed-index_of key (k ∷ guards_pk) i h = elim (Option-cases (index_of key guards_pk)) [
  | inl e ↦ ground (arith, h, e)
  | inr (j, e) ↦ ground (arith, h, IsListed-index_of key guards_pk j)
]

key_at-index_of :
    (key : String) (guards_pk : List String) (i : ℕ)
    → index_of key guards_pk ≡ some i
    → key_at guards_pk (some i) ≡ ok key
unfolding key_at
key_at-index_of key guards_pk i h = ground (arith, get_elem?-index_of key guards_pk i h)

-- The indices that an `initiateSign` message carries name the signers to every receiver with the
-- same list of keys: the receiver reads exactly the keys that the sender wrote, in their order,
-- if and only if all of them are keys of guards.
pub keys_at-inds_of :
    (guards_pk pub_keys : List String)
    → (keys_at guards_pk (inds_of guards_pk pub_keys) ≡ ok pub_keys)
      ↔ All (IsListed guards_pk) pub_keys
unfolding keys_at key_at
keys_at-inds_of guards_pk [] = (λ h. tt, λ a. refl)
keys_at-inds_of guards_pk (key ∷ pub_keys) = elim (Option-cases (index_of key guards_pk)) [
  | inl e ↦ (λ h. ground (arith, h, e), λ a. ground (arith, a.0, index_of-IsListed key guards_pk e))
  | inr (i, e) ↦
      let (read, write) = keys_at-inds_of guards_pk pub_keys in
      elim (Result-value (keys_at guards_pk (inds_of guards_pk pub_keys))) [
        | inl (ks, f) ↦ (
          λ h. (
            IsListed-index_of key guards_pk i e,
            read (ground (arith, h, e, f, key_at-index_of key guards_pk i e)),
          ),
          λ a. ground (arith, e, write a.1, key_at-index_of key guards_pk i e),
        )
        | inr (x, f) ↦ (
          λ h. ground (arith, h, e, f, key_at-index_of key guards_pk i e),
          λ a. ground (arith, e, write a.1, key_at-index_of key guards_pk i e),
        )
      ]
]
