-- ===== src/Communicator/Index.antt =====
-- The sender's index: how `getIndex` finds it, keeps it, and what a change of the keys does to it.
use sign_protocols.Prelude.{
  ℕ, ◌++◌, ◌⊎◌, String, ◌≡◌, inl, inr, true, Option, none, some, List, [], ◌∷◌, arith, eq_iff,
  get_elem?, index_of, Option-cases,
}
use sign_protocols.Json.{ToJson}
use sign_protocols.Exec.{ok, Result-value}
use sign_protocols.Encryption.{EncryptionHandler}
use sign_protocols.Communicator.{
  signed_message, or_default, get_date, Communicator, get_index, send_message, change_pks,
  is_key_at,
}

pub get_elem?-index_of :
    (k : String) (xs : List String) (i : ℕ) → index_of k xs ≡ some i → get_elem? xs i ≡ some k
get_elem?-index_of k [] i h = cc
get_elem?-index_of k (x ∷ xs) i h = elim (Option-cases (index_of k xs)) [
  | inl e ↦ ground (arith, eq_iff x k)
  | inr (m, e) ↦ ground (arith, eq_iff x k, get_elem?-index_of k xs m)
]

pub is_key_at-index_of :
    (k : String) (xs : List String) (i : ℕ) → index_of k xs ≡ some i → is_key_at xs i k ≡ true
is_key_at-index_of k xs i h = ground (arith, get_elem?-index_of k xs i, eq_iff k k)

pub is_key_at→get_elem? :
    (xs : List String) (i : ℕ) (k : String) → is_key_at xs i k ≡ true → get_elem? xs i ≡ some k
is_key_at→get_elem? xs i k h = elim (Option-cases (get_elem? xs i)) [
  | inl e ↦ ground arith
  | inr (m, e) ↦ ground (arith, eq_iff m k)
]

-- `getIndex` answers where this guard's key stands in the list, and remembers the answer: from
-- a state without a cached index, if it answers `i` then the key at `i` is this guard's own, the
-- index is cached, a second call answers `i` and changes nothing, and all else is as before.
pub get_index_correct :
    {P : Type 0} ⦃j : ToJson P⦄ (enc : EncryptionHandler) (c : Communicator P) (i : ℕ)
    → c.index ≡ none
    → (get_index enc c).0 ≡ ok i
    → (get_elem? c.guard_pks i ≡ some enc.get_pk)
      × ((get_index enc c).1 ≡ record c { index = some i })
      × (get_index enc (get_index enc c).1 ≡ (ok i, (get_index enc c).1))
unfolding get_index
get_index_correct enc c i fresh h = ground (arith, get_elem?-index_of enc.get_pk c.guard_pks i)

-- A change of the keys does not drop the cached index: whatever the new keys are, `getIndex`
-- answers with the index in the old list.
pub get_index-change_pks :
    {P : Type 0} ⦃j : ToJson P⦄ (enc : EncryptionHandler) (c : Communicator P)
    (new_pks : List String) (i : ℕ)
    → c.index ≡ some i
    → (get_index enc (change_pks new_pks c)).0 ≡ ok i
unfolding get_index change_pks
get_index-change_pks enc c new_pks i h = ground arith

-- Neither `getIndex` nor `sendMessage` touches the keys.
module _ {P : Type 0} ⦃j : ToJson P⦄ (enc : EncryptionHandler) (c : Communicator P) where
  pub guard_pks-get_index : (get_index enc c).1.guard_pks ≡ c.guard_pks
  unfolding get_index
  guard_pks-get_index = ground arith

  pub guard_pks-send_message :
      (now : ℕ) (kind : String) (payload : P) (peers : List String) (time : Option ℕ)
      → (send_message enc now kind payload peers time c).1.guard_pks ≡ c.guard_pks
  unfolding send_message get_index
  guard_pks-send_message now kind payload peers time = ground arith

  pub outbox-get_index : (get_index enc c).1.outbox ≡ c.outbox
  unfolding get_index
  outbox-get_index = ground arith

  -- What `sendMessage` does: it submits one message under the index that it finds, or throws and
  -- submits nothing.
  pub send_message-sends :
      (now : ℕ) (kind : String) (payload : P) (peers : List String) (time : Option ℕ)
      → ((send_message enc now kind payload peers time c).1.outbox ≡ c.outbox)
        ⊎ ((i : ℕ) × ((get_index enc c).0 ≡ ok i)
            × ((send_message enc now kind payload peers time c).1.outbox
                ≡ c.outbox
                  ++ record {
                    message = signed_message enc kind payload (or_default time (get_date now)) i;
                    peers = peers;
                  }
                    ∷ []))
  unfolding send_message
  send_message-sends now kind payload peers time = elim (Result-value (get_index enc c).0) [
    | inl (i, e) ↦ inr (i, e, ground (arith, outbox-get_index))
    | inr (x, e) ↦ inl (ground (arith, outbox-get_index))
  ]

  pub get_index-again :
      (i : ℕ)
      → (get_index enc c).0 ≡ ok i
      → get_index enc (get_index enc c).1 ≡ (ok i, (get_index enc c).1)
  unfolding get_index
  get_index-again i h = ground arith

  -- what `sendMessage` does when the index is found
  pub send_message-ok :
      (now : ℕ) (kind : String) (payload : P) (peers : List String) (time : Option ℕ) (i : ℕ)
      → (get_index enc c).0 ≡ ok i
      → ((send_message enc now kind payload peers time c).0 ≡ ok tt)
        × ((get_index enc (send_message enc now kind payload peers time c).1).0 ≡ ok i)
        × ((send_message enc now kind payload peers time c).1.outbox
            ≡ c.outbox
              ++ record {
                message = signed_message enc kind payload (or_default time (get_date now)) i;
                peers = peers;
              }
                ∷ [])
  unfolding send_message get_index
  send_message-ok now kind payload peers time i h = (ground arith, ground arith, ground arith)
