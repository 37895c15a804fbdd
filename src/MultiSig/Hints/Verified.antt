-- ===== src/MultiSig/Hints/Verified.antt =====
-- What `verifyInput` answers.
use sign_protocols.Prelude.{
  ℕ, zero, suc, ◌+◌, ◌≤◌, ◌<◌, ◌≡◌, ◌↔◌, refl, List, true, arith, eqb, Bool-cases, inl, inr, ◌⊎◌,
}
use sign_protocols.Exec.{ok, Result-cases}
use sign_protocols.MultiSig.Ergo.{ErgoLib}
use sign_protocols.MultiSig.Hints.{add_boxes, verify_from, verify_input}
use mathlib.Core.Path.{subst}

eq-or-lt : (i k : ℕ) → i ≤ k → (i ≡ k) ⊎ (suc i ≤ k)
eq-or-lt i k h = elim (Bool-cases (eqb i k)) [
  | inl e ↦ inl (ground arith)
  | inr e ↦ inr (ground arith)
]

module _ (E : ErgoLib) (context : E.Context) (tx : E.Transaction) (boxes : E.Boxes) where
  abbrev IsValidAt : ℕ → Type 0
  IsValidAt k = E.verify_tx_input_proof k context tx boxes E.empty_boxes ≡ ok true

  verify_from-suc :
      (i n : ℕ)
      → verify_from E context tx boxes i (suc n) ≡ ok true
      → IsValidAt i × (verify_from E context tx boxes (suc i) n ≡ ok true)
  unfolding verify_from
  verify_from-suc i n h =
      elim (Result-cases (E.verify_tx_input_proof i context tx boxes E.empty_boxes)) [
        | inl e ↦ (e, ground (arith, h, e))
        | inr (inl e) ↦ ground (arith, h, e)
        | inr (inr (x, e)) ↦ ground (arith, h, e)
      ]

  verify_from-all :
      (i n k : ℕ) → verify_from E context tx boxes i n ≡ ok true → i ≤ k → k < i + n → IsValidAt k
  verify_from-all i zero k h l u = absurd (omega (arith, l, u))
  verify_from-all i (suc n) k h l u =
      let (here, rest) = verify_from-suc i n h in
      elim (eq-or-lt i k l) [
        | inl e ↦ subst IsValidAt e here
        | inr l' ↦ verify_from-all (suc i) n k rest l' (omega (arith, u))
      ]

  all-verify_from :
      (i n : ℕ)
      → ((k : ℕ) → i ≤ k → k < i + n → IsValidAt k)
      → verify_from E context tx boxes i n ≡ ok true
  unfolding verify_from
  all-verify_from i zero k = refl
  all-verify_from i (suc n) k =
      let here = k i (omega arith) (omega arith) in
      let rest = all-verify_from (suc i) n (λ j l u. k j (omega (arith, l)) (omega (arith, u))) in
      ground (arith, here, rest)

-- `verifyInput` answers yes exactly for the transactions all of whose inputs have a proof that
-- verifies against the given boxes, without data boxes, in the state context.
pub verify_input_iff :
    (E : ErgoLib) (context : E.Context) (tx : E.Transaction) (boxes : List E.Box)
    → (verify_input E (ok context) tx boxes ≡ ok true) ↔ (
        (i : ℕ)
        → i < E.transaction_inputs_len tx
        → E.verify_tx_input_proof i context tx (add_boxes E boxes E.empty_boxes) E.empty_boxes
          ≡ ok true)
unfolding verify_input
verify_input_iff E context tx boxes = (
  λ h i l.
      verify_from-all E context tx (add_boxes E boxes E.empty_boxes) 0 _ i h (omega arith)
        (omega (arith, l)),
  λ k.
      all-verify_from E context tx (add_boxes E boxes E.empty_boxes) 0 _
        (λ i l u. k i (omega (arith, u))),
)
