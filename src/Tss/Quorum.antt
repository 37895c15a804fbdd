-- ===== src/Tss/Quorum.antt =====
-- Who counts as having approved: an independent description for `getApprovedGuards`.
use sign_protocols.Prelude.{
  ℕ, zero, suc, Bool, false, All, String, ◌≡◌, ◌≢◌, refl, Option, none, some, List, [], ◌∷◌, true,
  arith, get_elem?, index_of, replicate, Bool-cases, Option-cases, inl, inr, eq_iff, ◌==◌, ◌⊎◌,
}
use mathlib.Core.Path.{subst}
use sign_protocols.Exec.{ok, err, Result-cases, Result-value}
use sign_protocols.Encryption.{EncryptionHandler}
use sign_protocols.Communicator.{generate_payload_to_sign}
use sign_protocols.Detection.State.{ActiveGuard}
use sign_protocols.Tss.State.{SignApprovePayload, approve, sign_payload_json}
use sign_protocols.Tss.Approved.{check_guard, get_approved_guards}

module _ (enc : EncryptionHandler) (pks : List String) (timestamp : ℕ)
    (payload : SignApprovePayload) (signs : List (Option String)) where
  -- The guard's key is in the list, and the sign at its place is a signature of the payload under
  -- that key.
  pub record Approves (guard : ActiveGuard) : Type 0 where
    pub place : ℕ
    pub signature : String
    pub known : index_of guard.public_key pks ≡ some place
    pub given : get_elem? signs place ≡ some (some signature)
    pub nonempty : signature ≢ ""
    pub verified :
        enc.verify
          (generate_payload_to_sign (approve payload) timestamp guard.public_key)
          signature
          guard.public_key
        ≡ ok true

  -- What the approvals make of the guards: those that approve, in their order, and no others.
  pub data Selected : List ActiveGuard → List ActiveGuard → Type 0 where
    nothing : Selected [] []
    selects :
        {guard : ActiveGuard} {guards approved : List ActiveGuard}
        → Approves guard
        → Selected guards approved
        → Selected (guard ∷ guards) (guard ∷ approved)
    skips :
        {guard : ActiveGuard} {guards approved : List ActiveGuard}
        → (¬ Approves guard)
        → Selected guards approved
        → Selected (guard ∷ guards) approved

  -- the outcomes of `check_guard`
  abbrev Checked : ActiveGuard → Type 0
  Checked guard =
      ((check_guard enc timestamp payload pks signs guard ≡ ok (some guard)) × Approves guard)
      ⊎ ((check_guard enc timestamp payload pks signs guard ≡ ok none) × (¬ Approves guard))
      ⊎ ((e : String) × (check_guard enc timestamp payload pks signs guard ≡ err e))

  check_guard-Checked : (guard : ActiveGuard) → Checked guard
  unfolding check_guard
  check_guard-Checked guard = elim (Option-cases (index_of guard.public_key pks)) [
    | inl e ↦ inr (inl (ground arith, λ a. cc (a.known, e)))
    | inr (i, e) ↦ elim (Option-cases (get_elem? signs i)) [
      | inl f ↦ inr (inr ("TypeError", ground arith))
      | inr (o, f) ↦ elim (Option-cases o) [
        | inl g ↦ inr (inr ("TypeError", ground arith))
        | inr (sig, g) ↦ elim (Bool-cases (sig == "")) [
          | inl b ↦
              inr (
                inl
                  (ground arith, λ a. ground (arith, a.known, a.given, a.nonempty, eq_iff sig "")))
          | inr b ↦
              elim (Result-cases (
                enc.verify (generate_payload_to_sign (approve payload) timestamp guard.public_key)
                  sig guard.public_key)) [
                    | inl v ↦ inl (
                      ground arith,
                      record {
                        place = i;
                        signature = sig;
                        known = e;
                        given = ground arith;
                        nonempty = λ q. ground (arith, eq_iff sig "");
                        verified = v;
                      },
                    )
                    | inr (inl v) ↦
                        inr (inl (ground arith, λ a. ground (arith, a.known, a.given, a.verified)))
                    | inr (inr (x, v)) ↦ inr (inr (x, ground arith))
                  ]
        ]
      ]
    ]
  ]

  -- If `getApprovedGuards` returns, then it returns the guards whose signatures are good, each as
  -- often as it is listed and in the order of the list, and leaves out all others.
  pub get_approved_guards-Selected :
      (guards approved : List ActiveGuard)
      → get_approved_guards enc pks timestamp payload signs guards ≡ ok approved
      → Selected guards approved
  unfolding get_approved_guards
  get_approved_guards-Selected [] [] h = nothing
  get_approved_guards-Selected [] (g ∷ gs) h = cc
  get_approved_guards-Selected (g ∷ gs) approved h =
      elim (Result-value (get_approved_guards enc pks timestamp payload signs gs)) [
        | inr (e, f) ↦ elim (check_guard-Checked g) [
          | inl (c, a) ↦ ground arith
          | inr (inl (c, a)) ↦ ground arith
          | inr (inr (x, c)) ↦ ground arith
        ]
        | inl (rest, f) ↦
            let ih : Selected gs rest = get_approved_guards-Selected gs rest f in
            elim (check_guard-Checked g) [
              | inl (c, a) ↦
                  let eq : g ∷ rest ≡ approved = ground arith in
                  subst (Selected (g ∷ gs)) eq (selects a ih)
              | inr (inl (c, a)) ↦
                  let eq : rest ≡ approved = ground arith in
                  subst (Selected (g ∷ gs)) eq (skips a ih)
              | inr (inr (x, c)) ↦ ground arith
            ]
      ]

  -- The guard's key is not in the list, or there is a sign at its place that can be verified.
  abbrev pub IsCheckable : ActiveGuard → Type 0
  IsCheckable guard =
      (index_of guard.public_key pks ≡ none)
      ⊎ ((i : ℕ) × (signature : String) × (verdict : Bool) × (index_of guard.public_key pks
            ≡ some i)
          × (get_elem? signs i ≡ some (some signature))
          × (enc.verify (generate_payload_to_sign (approve payload) timestamp guard.public_key)
                signature guard.public_key
              ≡ ok verdict))

  check_guard-returns :
      (guard : ActiveGuard) (e : String)
      → IsCheckable guard
      → ¬ (check_guard enc timestamp payload pks signs guard ≡ err e)
  unfolding check_guard
  check_guard-returns guard e (inl unknown) c = ground (arith, unknown, c)
  check_guard-returns guard e (inr (i, signature, true, at, given, v)) c =
      ground (arith, at, given, v, c)
  check_guard-returns guard e (inr (i, signature, false, at, given, v)) c =
      ground (arith, at, given, v, c)

  -- `getApprovedGuards` returns if every guard whose key is in the list has a sign, and verifying
  -- that sign does not throw; what it returns are the guards whose signatures are good.
  pub get_approved_guards-returns :
      (guards : List ActiveGuard)
      → All IsCheckable guards
      → (approved : List ActiveGuard) × (get_approved_guards enc pks timestamp payload signs guards
          ≡ ok approved)
        × Selected guards approved
  unfolding get_approved_guards
  get_approved_guards-returns [] h = ([], refl, nothing)
  get_approved_guards-returns (g ∷ gs) h =
      let (rest, f, r) = get_approved_guards-returns gs h.1 in
      elim (check_guard-Checked g) [
        | inl (c, a) ↦ (g ∷ rest, ground (arith, c, f), selects a r)
        | inr (inl (c, a)) ↦ (rest, ground (arith, c, f), skips a r)
        | inr (inr (x, c)) ↦ absurd (check_guard-returns g x h.0 c)
      ]

  check_guard-ok :
      (guard : ActiveGuard)
      → Approves guard
      → check_guard enc timestamp payload pks signs guard ≡ ok (some guard)
  unfolding check_guard
  check_guard-ok guard a =
      ground (arith, a.known, a.given, a.nonempty, a.verified, eq_iff a.signature "")

  -- The list of guards is not checked for repetitions: if one guard's signature is good and the
  -- list names that guard `n` times, then it counts as `n` approvals.
  pub get_approved_guards-replicate :
      (n : ℕ) (guard : ActiveGuard)
      → Approves guard
      → get_approved_guards enc pks timestamp payload signs (replicate n guard)
        ≡ ok (replicate n guard)
  unfolding get_approved_guards
  get_approved_guards-replicate zero guard a = refl
  get_approved_guards-replicate (suc n) guard a =
      ground (arith, check_guard-ok guard a, get_approved_guards-replicate n guard a)
