-- ===== src/MultiSig/Queue/Cleaning.antt =====
-- What `cleanup` removes from the queue, and whom it tells.
use sign_protocols.Prelude.{
  sym, append-nil, append_assoc, ℕ, String, ◌≡◌, refl, ap, ◌∙◌, Option, none, some, List, [], ◌∷◌,
  ◌++◌, Bool, true, false, ◌&&◌, any, arith, inl, inr, Option-cases, AllDiffer, eq_iff,
  if◌then◌else◌, ◌==◌,
}
use sign_protocols.Prelude.Maps.{Entries, lookup, keys, lookup-erase}
use sign_protocols.MultiSig.Ergo.{ErgoLib}
use sign_protocols.MultiSig.State.{TxQueued, MultiSig, Settled, rejected}
use sign_protocols.MultiSig.Queue.{is_expired, clean_entry, clean_entries, cleanup_if, cleanup}

module _ {E : ErgoLib} (now timeout : ℕ) where
  -- an entry, unless its time is over
  abbrev pub unexpired : Option (TxQueued E) → Option (TxQueued E)
  unexpired none = none
  unexpired (some t) = if is_expired now timeout t then none else some t

  abbrev rejection : Option ℕ → List (Settled E)
  rejection none = []
  rejection (some promise) = rejected promise "Timed out" ∷ []

  -- one rejection for each entry whose time is over and that has a promise, in the queue's order
  abbrev pub rejections : Entries (TxQueued E) → List (Settled E)
  rejections [] = []
  rejections ((tx_id, t) ∷ entries) =
      if is_expired now timeout t
      then rejection t.reject ++ rejections entries
      else rejections entries

  abbrev expires : String → String × TxQueued E → Bool
  expires id (tx_id, t) = tx_id == id && is_expired now timeout t

  timeout-clean_entry :
      (tx_id : String) (t : TxQueued E) (s : MultiSig E)
      → (clean_entry now tx_id t s).tx_sign_timeout ≡ s.tx_sign_timeout
  unfolding clean_entry
  timeout-clean_entry tx_id t s = elim (Option-cases t.reject) [
    | inl e ↦ ground (arith, e)
    | inr (p, e) ↦ ground (arith, e)
  ]

  lookup-clean_entry :
      (id tx_id : String) (t : TxQueued E) (s : MultiSig E)
      → s.tx_sign_timeout ≡ timeout
      → lookup id (clean_entry now tx_id t s).transactions
        ≡ (if expires id (tx_id, t) then none else lookup id s.transactions)
  unfolding clean_entry
  lookup-clean_entry id tx_id t s h = elim (Option-cases t.reject) [
    | inl e ↦ ground (arith, e, h, lookup-erase tx_id id s.transactions)
    | inr (p, e) ↦ ground (arith, e, h, lookup-erase tx_id id s.transactions)
  ]

  settled-clean_entry :
      (tx_id : String) (t : TxQueued E) (s : MultiSig E)
      → s.tx_sign_timeout ≡ timeout
      → (clean_entry now tx_id t s).settled ≡ s.settled ++ rejections ((tx_id, t) ∷ [])
  unfolding clean_entry
  settled-clean_entry tx_id t s h = elim (Option-cases t.reject) [
    | inl e ↦ ground (arith, e, h, sym (append-nil s.settled))
    | inr (p, e) ↦ ground (arith, e, h, sym (append-nil s.settled))
  ]

  rejections-cons :
      (tx_id : String) (t : TxQueued E) (entries : Entries (TxQueued E))
      → rejections ((tx_id, t) ∷ []) ++ rejections entries ≡ rejections ((tx_id, t) ∷ entries)
  rejections-cons tx_id t entries = elim (Option-cases t.reject) [
    | inl e ↦ ground (arith, e)
    | inr (p, e) ↦ ground (arith, e)
  ]

  lookup-clean_entries :
      (id : String) (entries : Entries (TxQueued E)) (s : MultiSig E)
      → s.tx_sign_timeout ≡ timeout
      → lookup id (clean_entries now entries s).transactions
        ≡ (if any (expires id) entries then none else lookup id s.transactions)
  unfolding clean_entries
  lookup-clean_entries id [] s h = refl
  lookup-clean_entries id ((tx_id, t) ∷ entries) s h =
      let s' = clean_entry now tx_id t s in
      ground (
        arith,
        lookup-clean_entries id entries s' (timeout-clean_entry tx_id t s ∙ h),
        lookup-clean_entry id tx_id t s h,
      )

  settled-clean_entries :
      (entries : Entries (TxQueued E)) (s : MultiSig E)
      → s.tx_sign_timeout ≡ timeout
      → (clean_entries now entries s).settled ≡ s.settled ++ rejections entries
  unfolding clean_entries
  settled-clean_entries [] s h = sym (append-nil s.settled)
  settled-clean_entries ((tx_id, t) ∷ entries) s h =
      let s' = clean_entry now tx_id t s in
      settled-clean_entries entries s' (timeout-clean_entry tx_id t s ∙ h)
      ∙ ap (λ l. l ++ rejections entries) (settled-clean_entry tx_id t s h)
      ∙ append_assoc s.settled (rejections ((tx_id, t) ∷ [])) (rejections entries)
      ∙ ap (λ l. s.settled ++ l) (rejections-cons tx_id t entries)

  no_expires :
      (id : String) (entries : Entries (TxQueued E))
      → any (λ y. y == id) (keys entries) ≡ false
      → any (expires id) entries ≡ false
  no_expires id [] h = refl
  no_expires id ((tx_id, t) ∷ entries) h = ground (arith, no_expires id entries)

  expires-lookup :
      (id : String) (entries : Entries (TxQueued E))
      → AllDiffer (keys entries)
      → (if any (expires id) entries then none else lookup id entries)
        ≡ unexpired (lookup id entries)
  unfolding lookup
  expires-lookup id [] d = refl
  expires-lookup id ((tx_id, t) ∷ entries) d =
      ground (arith, expires-lookup id entries, no_expires tx_id entries, eq_iff tx_id id)

module _ {E : ErgoLib} where
  cleanup_if-unexpired :
      (now : ℕ) (taken : Bool) (s : MultiSig E)
      → s.locked ≡ taken
      → AllDiffer (keys s.transactions)
      → ((id : String)
          → lookup id (cleanup_if now taken s).transactions ≡ (
              if taken
              then lookup id s.transactions
              else unexpired now s.tx_sign_timeout (lookup id s.transactions)))
        × ((cleanup_if now taken s).settled ≡ (
            if taken
            then s.settled
            else s.settled ++ rejections now s.tx_sign_timeout s.transactions))
        × ((cleanup_if now taken s).locked ≡ taken)
  unfolding cleanup_if
  cleanup_if-unexpired now true s e d = (λ id. refl, refl, e)
  cleanup_if-unexpired now false s e d = (
    λ id.
        lookup-clean_entries now s.tx_sign_timeout id s.transactions (record s { locked = true })
          refl
        ∙ expires-lookup now s.tx_sign_timeout id s.transactions d,
    settled-clean_entries now s.tx_sign_timeout s.transactions (record s { locked = true }) refl,
    refl,
  )

  -- `cleanup` removes the entries whose time is over and no others, and rejects the promise of each
  -- of them: if no id stands twice in the queue, then under every id stands what stood there,
  -- unless its time is over, and the calls are one rejection for each of the removed entries that
  -- has a promise, in the queue's order. When the semaphore is taken it waits and nothing changes;
  -- otherwise the semaphore is free again at the end.
  pub cleanup-unexpired :
      (now : ℕ) (s : MultiSig E)
      → AllDiffer (keys s.transactions)
      → ((id : String)
          → lookup id (cleanup now s).transactions ≡ (
              if s.locked
              then lookup id s.transactions
              else unexpired now s.tx_sign_timeout (lookup id s.transactions)))
        × ((cleanup now s).settled ≡ (
            if s.locked
            then s.settled
            else s.settled ++ rejections now s.tx_sign_timeout s.transactions))
        × ((cleanup now s).locked ≡ s.locked)
  unfolding cleanup
  cleanup-unexpired now s d = cleanup_if-unexpired now s.locked s refl d
