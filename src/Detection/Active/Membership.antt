-- ===== src/Detection/Active/Membership.antt =====
-- Who is among the active guards.
use mathlib.Core.List.{Perm}
use mathlib.Core.List.Perm
use mathlib.Core.Path.{subst}
use sign_protocols.Prelude.{
  ℕ, String, ◌≡◌, List, [], ◌∷◌, ◌++◌, Bool, true, false, map, arith, Bool-cases, inl, inr,
}
use sign_protocols.Exec.{ok, Result-value}
use sign_protocols.Communicator.{get_date, get_index}
use sign_protocols.Communicator.Index.{get_index-again}
use sign_protocols.Detection.State.{ActiveGuard, GuardDetection, Host, detection_payload_json}
use sign_protocols.Detection.Active.{
  insert_sorted, sort, to_active, active_infos, my_active_guard, active_guards,
}

module _ {C : Type 0} (host : Host) where
  -- Asking again at the same time gives the same answer, and changes nothing more.
  pub active_guards-again :
      (s : GuardDetection C) (guards : List ActiveGuard)
      → (active_guards host s).0 ≡ ok guards
      → active_guards host (active_guards host s).1 ≡ (ok guards, (active_guards host s).1)
  unfolding active_guards
  active_guards-again s guards h = elim (Result-value (get_index host.enc s.comm).0) [
    | inr (x, e) ↦ ground arith
    | inl (i, e) ↦ ground (arith, get_index-again host.enc s.comm i e)
  ]

insert_sorted-perm {ℓ} :
    {A : Type ℓ} (le : A → A → Bool) (x : A) (xs : List A) → Perm (insert_sorted le x xs) (x ∷ xs)
unfolding insert_sorted
insert_sorted-perm le x [] = Perm.refl _
insert_sorted-perm le x (y ∷ ys) = elim (Bool-cases (le x y)) [
  | inl e ↦ rw e (Perm.refl _)
  | inr e ↦ rw e (Perm.trans (Perm.cons y (insert_sorted-perm le x ys)) (Perm.swap x y ys))
]

sort-perm {ℓ} : {A : Type ℓ} (le : A → A → Bool) (xs : List A) → Perm (sort le xs) xs
unfolding sort
sort-perm le [] = Perm.refl _
sort-perm le (x ∷ xs) =
    Perm.trans (insert_sorted-perm le x (sort le xs)) (Perm.cons x (sort-perm le xs))

-- no two neighbours are out of order
abbrev pub IsOrdered {ℓ} : {A : Type ℓ} → (A → A → Bool) → List A → Type 0
IsOrdered le [] = Unit
IsOrdered le (x ∷ []) = Unit
IsOrdered le (x ∷ y ∷ ys) = (le x y ≡ true) × IsOrdered le (y ∷ ys)

module _ {ℓ} {A : Type ℓ} (le : A → A → Bool)
    (total : (a b : A) → le a b ≡ false → le b a ≡ true) where
  insert_sorted-IsOrdered :
      (x : A) (xs : List A) → IsOrdered le xs → IsOrdered le (insert_sorted le x xs)
  unfolding insert_sorted
  insert_sorted-IsOrdered x [] o = tt
  insert_sorted-IsOrdered x (y ∷ []) o = elim (Bool-cases (le x y)) [
    | inl e ↦ rw e (e, tt)
    | inr e ↦ rw e (total x y e, tt)
  ]
  insert_sorted-IsOrdered x (y ∷ z ∷ zs) o =
      let ih : IsOrdered le (insert_sorted le x (z ∷ zs)) =
        insert_sorted-IsOrdered x (z ∷ zs) o.1 in
      ground (arith, total x y, ih, o)

  sort-IsOrdered : (xs : List A) → IsOrdered le (sort le xs)
  unfolding sort
  sort-IsOrdered [] = tt
  sort-IsOrdered (x ∷ xs) = insert_sorted-IsOrdered x (sort le xs) (sort-IsOrdered xs)

module _ {C : Type 0} (host : Host) where
  -- what an answer of `activeGuards` lists
  pub active_guards-listed :
      (s : GuardDetection C) (guards : List ActiveGuard)
      → (active_guards host s).0 ≡ ok guards
      → (i : ℕ) × ((get_index host.enc s.comm).0 ≡ ok i)
        × Perm guards
            (map to_active (active_infos (get_date host.now) s) ++ my_active_guard host i ∷ [])
  unfolding active_guards
  active_guards-listed s guards h = elim (Result-value (get_index host.enc s.comm).0) [
    | inr (x, e) ↦ ground arith
    | inl (i, e) ↦
        let listed : List ActiveGuard =
          map to_active (active_infos (get_date host.now) s) ++ my_active_guard host i ∷ [] in
        let eq : sort (λ a b. host.locale_le a.public_key b.public_key) listed ≡ guards =
          ground arith in
        (i, e, subst (λ g. Perm g listed) eq (sort-perm _ listed))
  ]

  -- an answer up to order
  pub active_guards-perm :
      (s : GuardDetection C) (i : ℕ)
      → (get_index host.enc s.comm).0 ≡ ok i
      → (guards : List ActiveGuard) × ((active_guards host s).0 ≡ ok guards)
        × Perm guards
            (map to_active (active_infos (get_date host.now) s) ++ my_active_guard host i ∷ [])
  unfolding active_guards
  active_guards-perm s i e =
      let listed : List ActiveGuard =
        map to_active (active_infos (get_date host.now) s) ++ my_active_guard host i ∷ [] in
      (
        sort (λ a b. host.locale_le a.public_key b.public_key) listed,
        ground arith,
        sort-perm _ listed,
      )

  -- The answer is in the order of the public keys, if the host's collation is total.
  pub active_guards-IsOrdered :
      (s : GuardDetection C) (guards : List ActiveGuard)
      → ((a b : String) → host.locale_le a b ≡ false → host.locale_le b a ≡ true)
      → (active_guards host s).0 ≡ ok guards
      → IsOrdered (λ a b. host.locale_le a.public_key b.public_key) guards
  unfolding active_guards
  active_guards-IsOrdered s guards total h = elim (Result-value (get_index host.enc s.comm).0) [
    | inr (x, e) ↦ ground arith
    | inl (i, e) ↦
        let listed : List ActiveGuard =
          map to_active (active_infos (get_date host.now) s) ++ my_active_guard host i ∷ [] in
        let le : ActiveGuard → ActiveGuard → Bool =
          λ a b. host.locale_le a.public_key b.public_key in
        let eq : sort le listed ≡ guards = ground arith in
        subst (IsOrdered le) eq (sort-IsOrdered le (λ a b. total a.public_key b.public_key) listed)
  ]
