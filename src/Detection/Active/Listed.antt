-- ===== src/Detection/Active/Listed.antt =====
-- Which guards `activeGuards` lists.
use mathlib.Core.List.{
  Mem, mem-append, mem-append_left, mem-append_right, mem-map_of_mem, exists_of_mem-map, mem-cons,
  mem-cons_self, mem-cons_of_mem, not-mem-nil,
}
use mathlib.Core.List.Perm
use mathlib.Core.Logic.{◌∨₁◌, ∥∥₁_prop, ∥∥₁_elim, ∥∥₁_map}
use mathlib.Core.Logic.Or
use mathlib.Core.Path.{subst}
use sign_protocols.Prelude.{
  ℕ, zero, suc, ◌+◌, ◌<◌, ◌≡◌, ◌≢◌, ◌↔◌, refl, sym, ap, ◌∙◌, some, List, [], ◌∷◌, Bool, true, false,
  map, arith, keep_if, get_elem?, Bool-cases, inl, inr, eq_iff,
}
use sign_protocols.Exec.{ok}
use sign_protocols.Communicator.{get_date, get_index}
use sign_protocols.Detection.State.{
  GuardInfo, ActiveGuard, GuardDetection, Host, detection_payload_json,
}
use sign_protocols.Detection.Active.{is_active, to_active, active_infos, active_guards}
use sign_protocols.Detection.Active.Membership.{active_guards-perm}

pub mem-keep_if {ℓ} :
    {A : Type ℓ} (p : A → Bool) (xs : List A) (i : ℕ) (x : A)
    → get_elem? xs i ≡ some x
    → p x ≡ true
    → Mem x (keep_if p xs)
mem-keep_if p [] i x e h = cc
mem-keep_if p (y ∷ xs) zero x e h = let same : y ≡ x = ground arith in rw (same, h) mem-cons_self
mem-keep_if p (y ∷ xs) (suc i) x e h = elim (Bool-cases (p y)) [
  | inl q ↦ rw q (mem-cons_of_mem y (mem-keep_if p xs i x e h))
  | inr q ↦ rw q (mem-keep_if p xs i x e h)
]

-- where an element that is kept stood
abbrev Stands {ℓ} : {A : Type ℓ} → (A → Bool) → List A → A → Type ℓ
Stands p xs x = (i : ℕ) × (get_elem? xs i ≡ some x) × (p x ≡ true)

Stands-keep_if {ℓ} :
    {A : Type ℓ} (p : A → Bool) (xs : List A) (x : A) → Mem x (keep_if p xs) → ∥ Stands p xs x ∥₁
Stands-keep_if p [] x m = absurd (not-mem-nil m)
Stands-keep_if p (y ∷ xs) x m = elim (Bool-cases (p y)) [
  | inr q ↦ ∥∥₁_map (Stands-keep_if p xs x (subst (λ l. Mem x l) (rw q refl) m)) next
  | inl q ↦
      let m' : Mem x (y ∷ keep_if p xs) = subst (λ l. Mem x l) (rw q refl) m in
      Or.elim ∥∥₁_prop (mem-cons.0 m') (λ e. ∣ (0, ap some (sym e), ap p e ∙ q) ∣₁)
        (λ n. ∥∥₁_map (Stands-keep_if p xs x n) next)
]
  where
    next : Stands p xs x → Stands p (y ∷ xs) x
    next (i, e, h) = (suc i, e, h)

module _ {C : Type 0} (host : Host) (s : GuardDetection C) where
  -- An entry with a peer id that was heard of within the active timeout, as it is listed.
  abbrev pub IsHeard : ActiveGuard → Type 0
  IsHeard guard =
      (k : ℕ) × (info : GuardInfo C) × (get_elem? s.guards_info k ≡ some info)
      × (info.peer_id ≢ "")
      × (get_date host.now < info.last_update + s.active_timeout)
      × (guard ≡ record {
        key_first = false;
        peer_id = info.peer_id;
        public_key = info.public_key;
        index = info.index;
      })

  active-IsHeard :
      (info : GuardInfo C)
      → is_active (get_date host.now) s.active_timeout info ≡ true
      → (info.peer_id ≢ "") × (get_date host.now < info.last_update + s.active_timeout)
  active-IsHeard info h = (λ e. ground (arith, h, eq_iff info.peer_id "", e), ground (arith, h))

  IsHeard-active :
      (info : GuardInfo C)
      → info.peer_id ≢ ""
      → get_date host.now < info.last_update + s.active_timeout
      → is_active (get_date host.now) s.active_timeout info ≡ true
  IsHeard-active info n l = ground (arith, eq_iff info.peer_id "", n, l)

  heard :
      (guard : ActiveGuard)
      → Mem guard (map to_active (active_infos (get_date host.now) s))
      → ∥ IsHeard guard ∥₁
  heard guard m = ∥∥₁_elim (exists_of_mem-map m) ∥∥₁_prop λ (info, m', e).
      ∥∥₁_map
        (Stands-keep_if (is_active (get_date host.now) s.active_timeout) s.guards_info info m')
        λ (k, at, h). let (n, l) = active-IsHeard info h in (k, info, at, n, l, sym e)

  listed :
      (guard : ActiveGuard)
      → IsHeard guard
      → Mem guard (map to_active (active_infos (get_date host.now) s))
  listed guard (k, info, at, n, l, e) =
      subst (λ g. Mem g (map to_active (active_infos (get_date host.now) s))) (sym e)
        (mem-map_of_mem to_active (
          mem-keep_if (is_active (get_date host.now) s.active_timeout) s.guards_info k info at
            (IsHeard-active info n l)))

  -- `activeGuards` answers, if this guard's key has an index, and lists exactly these: the entries
  -- with a peer id that were heard of within the active timeout, under their peer id, key and index,
  -- and this guard itself under its own peer id, key and index.
  pub active_guards-lists :
      (i : ℕ)
      → (get_index host.enc s.comm).0 ≡ ok i
      → (guards : List ActiveGuard) × ((active_guards host s).0 ≡ ok guards)
        × ((guard : ActiveGuard)
            → Mem guard guards ↔ (
                IsHeard guard
                ∨₁ (guard ≡ record {
                  key_first = true;
                  peer_id = host.peer_id;
                  public_key = host.enc.get_pk;
                  index = i;
                })))
  active_guards-lists i h =
      let (guards, e, p) = active_guards-perm host s i h in
      (
        guards,
        e,
        λ guard. (
          λ m.
              Or.elim ∥∥₁_prop (mem-append.0 ((Perm.mem_iff p).0 m))
                (λ m'. ∥∥₁_map (heard guard m') inl)
                (λ m'.
                  Or.elim ∥∥₁_prop (mem-cons.0 m') (λ q. ∣ inr q ∣₁) (λ n. absurd (not-mem-nil n))),
          λ o.
              Or.elim ∥∥₁_prop o (λ d. (Perm.mem_iff p).1 (mem-append_left _ (listed guard d)))
                (λ q. (Perm.mem_iff p).1 (
                  mem-append_right (map to_active (active_infos (get_date host.now) s))
                    (mem-cons.1 ∣ inl q ∣₁))),
        ),
      )
