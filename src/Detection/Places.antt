-- ===== src/Detection/Places.antt =====
-- The list of entries beside the list of keys: which entry belongs to which key.
use sign_protocols.Prelude.{
  ℕ, zero, suc, String, ◌≡◌, refl, ap, sym, ◌∙◌, Option, none, some, List, [], ◌∷◌, map, arith,
  modify, Option-cases, inl, inr, get_elem?,
}
use sign_protocols.Exec.{Result-value, modifies}
use sign_protocols.Exec.Invariance.{Keeps}
use sign_protocols.Communicator
use sign_protocols.Communicator.{get_date, get_index, send_message}
use sign_protocols.Communicator.Index.{guard_pks-get_index, guard_pks-send_message}
use sign_protocols.Detection.State.{
  Nonce, GuardInfo, GuardDetection, Host, create, fresh_infos, detection_payload_json,
}
use sign_protocols.Detection.Nonces.{clear_info, push_nonce, new_nonce, clear_nonce, add_nonce}
use sign_protocols.Detection.Active.{active_guards}
use sign_protocols.Detection.Update.{send}

module _ {C : Type 0} where
  abbrev pub place : GuardInfo C → ℕ × String
  place info = (info.index, info.public_key)

-- keys with their positions
abbrev pub numbered : ℕ → List String → List (ℕ × String)
numbered i [] = []
numbered i (pk ∷ pks) = (i, pk) ∷ numbered (suc i) pks

module _ {C : Type 0} where
  -- There is one entry for each key, in the order of the keys, with the key and its position.
  abbrev pub IsAligned : GuardDetection C → Type 0
  IsAligned s = map place s.guards_info ≡ numbered 0 s.guard_pks

  pub map_place-modify :
      (f : GuardInfo C → GuardInfo C) (xs : List (GuardInfo C)) (i : ℕ)
      → ((x : GuardInfo C) → place (f x) ≡ place x)
      → map place (modify xs i f) ≡ map place xs
  map_place-modify f [] i k = refl
  map_place-modify f (x ∷ xs) zero k = ground (arith, k x)
  map_place-modify f (x ∷ xs) (suc i) k = ground (arith, map_place-modify f xs i k)

  pub map_place-map :
      (f : GuardInfo C → GuardInfo C) (xs : List (GuardInfo C))
      → ((x : GuardInfo C) → place (f x) ≡ place x)
      → map place (map f xs) ≡ map place xs
  map_place-map f [] k = refl
  map_place-map f (x ∷ xs) k = ground (arith, k x, map_place-map f xs k)

pub map_place-fresh_infos :
    (C : Type 0) (i : ℕ) (pks : List String)
    → map place (fresh_infos {C = C} i pks) ≡ numbered i pks
map_place-fresh_infos C i [] = refl
map_place-fresh_infos C i (pk ∷ pks) = ground (arith, map_place-fresh_infos C (suc i) pks)

pub create-IsAligned :
    (C : Type 0) (pks : List String) (a h v : Option ℕ) → IsAligned (create {C = C} pks a h v)
unfolding create Communicator.init
create-IsAligned C pks a h v = map_place-fresh_infos C 0 pks

module _ {C : Type 0} (host : Host) where
  pub send-IsAligned :
      (kind : String) (nonce received : Option String) (peers : List String)
      → Keeps (IsAligned {C = C}) (send host kind nonce received peers)
  send-IsAligned kind nonce received peers = record {
    kept = λ s a.
        a
        ∙ ap (numbered 0) (
            sym (
              guard_pks-send_message host.enc s.comm host.now kind
                (record { nonce = nonce; received_nonce = received }) peers none));
  }

  pub clear_nonce-IsAligned : (s : GuardDetection C) → IsAligned s → IsAligned (clear_nonce host s)
  unfolding clear_nonce
  clear_nonce-IsAligned s a =
      map_place-map (clear_info (get_date host.now) s.message_valid_duration) s.guards_info
        (λ x. refl)
      ∙ a

  pub Keeps-clear_nonce : Keeps (IsAligned {C = C}) (modifies (clear_nonce host))
  Keeps-clear_nonce = record { kept = clear_nonce-IsAligned }

  -- what `addNonce` does once the timed-out nonces are gone
  pushed-IsAligned :
      (i : ℕ) (nonce : Nonce) (s : GuardDetection C)
      → IsAligned s
      → map place (modify s.guards_info i (push_nonce nonce)) ≡ numbered 0 s.guard_pks
  pushed-IsAligned i nonce s a = map_place-modify (push_nonce nonce) s.guards_info i (λ x. refl) ∙ a

  all_pushed-IsAligned :
      (nonce : Nonce) (s : GuardDetection C)
      → IsAligned s
      → map place (map (push_nonce nonce) s.guards_info) ≡ numbered 0 s.guard_pks
  all_pushed-IsAligned nonce s a = map_place-map (push_nonce nonce) s.guards_info (λ x. refl) ∙ a

  add_nonce_lem :
      (i : Option ℕ) (s : GuardDetection C) → IsAligned s → IsAligned (add_nonce host i s).1
  unfolding add_nonce
  add_nonce_lem none s a = all_pushed-IsAligned _ (clear_nonce host s) (clear_nonce-IsAligned s a)
  add_nonce_lem (some zero) s a =
      all_pushed-IsAligned _ (clear_nonce host s) (clear_nonce-IsAligned s a)
  add_nonce_lem (some (suc k)) s a =
      let cleared : GuardDetection C = clear_nonce host s in
      let b : IsAligned cleared = clear_nonce-IsAligned s a in
      elim (Option-cases (get_elem? cleared.guards_info (suc k))) [
        | inl e ↦ ground (arith, b)
        | inr (info, e) ↦
            ground (arith, pushed-IsAligned (suc k) (new_nonce host cleared) cleared b)
      ]

  pub add_nonce-IsAligned : (i : Option ℕ) → Keeps (IsAligned {C = C}) (add_nonce host i)
  add_nonce-IsAligned i = record { kept = add_nonce_lem i }

  active_guards_lem : (s : GuardDetection C) → IsAligned s → IsAligned (active_guards host s).1
  unfolding active_guards
  active_guards_lem s a = elim (Result-value (get_index host.enc s.comm).0) [
    | inl (i, e) ↦ ground (arith, guard_pks-get_index host.enc s.comm)
    | inr (x, e) ↦ ground (arith, guard_pks-get_index host.enc s.comm)
  ]

  pub active_guards-IsAligned : Keeps (IsAligned {C = C}) (active_guards host)
  active_guards-IsAligned = record { kept = active_guards_lem }
