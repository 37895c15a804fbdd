-- ===== src/Detection/Active.antt =====
-- The guards that are active now: `isGuardActive` and `activeGuards`.
pub mod Membership
pub mod Listed
use sign_protocols.Prelude.{
  ℕ, ◌+◌, String, List, [], ◌∷◌, ◌++◌, Bool, true, false, not, ◌&&◌, map, ltb, keep_if,
  if◌then◌else◌, ◌==◌,
}
use sign_protocols.Exec.{ok, ◌>>=◌, pure, gets}
use sign_protocols.Communicator.{get_date, get_index}
use sign_protocols.Detection.State.{
  GuardInfo, ActiveGuard, GuardDetection, Host, Method, on_comm, detection_payload_json,
}

-- `Array.prototype.sort` is stable; `le x y` says that the comparison is not positive.
insert_sorted {ℓ} : {A : Type ℓ} → (A → A → Bool) → A → List A → List A
insert_sorted le x [] = x ∷ []
insert_sorted le x (y ∷ ys) =
    let rest = insert_sorted le x ys in if le x y then x ∷ y ∷ ys else y ∷ rest

unfoldable pub sort {ℓ} : {A : Type ℓ} → (A → A → Bool) → List A → List A
unfolding insert_sorted
sort le [] = []
sort le (x ∷ xs) = insert_sorted le x (sort le xs)

module _ {C : Type 0} where
  -- `peerId !== '' && currentTime - lastUpdate < activeTimeout`
  abbrev pub is_active : ℕ → ℕ → GuardInfo C → Bool
  is_active date timeout info = not (info.peer_id == "") && ltb date (info.last_update + timeout)

  abbrev pub to_active : GuardInfo C → ActiveGuard
  to_active info = record {
    key_first = false;
    peer_id = info.peer_id;
    public_key = info.public_key;
    index = info.index;
  }

  -- `Array.filter` gives `isGuardActive` the position of each entry, so that it reads that entry.
  abbrev pub active_infos : ℕ → GuardDetection C → List (GuardInfo C)
  active_infos date s = keep_if (is_active date s.active_timeout) s.guards_info

abbrev pub my_active_guard : Host → ℕ → ActiveGuard
my_active_guard host index = record {
  key_first = true;
  peer_id = host.peer_id;
  public_key = host.enc.get_pk;
  index = index;
}

module _ {C : Type 0} (host : Host) where
  unfoldable pub active_guards : Method C (List ActiveGuard)
  active_guards = do
    index ← on_comm (get_index host.enc)
    infos ← gets (active_infos (get_date host.now))
    pure (
        sort (λ a b. host.locale_le a.public_key b.public_key)
          (map to_active infos ++ my_active_guard host index ∷ []))
