-- ===== src/Exec/Invariance.antt =====
-- What methods leave true of a state: the rules for the ways methods are put together.
use sign_protocols.Prelude.{List, [], ◌∷◌}
use sign_protocols.Exec.{Result, ok, err, Exec, ◌>>=◌, bind_result, caught, for_each}

-- the method leaves `I` true, whether it throws or not
pub record Keeps {ℓ κ μ} {S : Type ℓ} {A : Type μ} (I : S → Type κ) (m : Exec S A)
    : Type (ℓ ⊔ κ) where
  pub kept : (s : S) → I s → I (m s).1

module _ {ℓ κ} {S : Type ℓ} {I : S → Type κ} where
  kept-bind_result {μ} :
      {A B : Type μ} (f : A → Exec S B) (r : Result A) (s : S)
      → ((a : A) → Keeps I (f a))
      → I s
      → I (bind_result f r s).1
  kept-bind_result f (ok a) s k i = (k a).kept s i
  kept-bind_result f (err e) s k i = i

  pub Keeps-bind {μ} :
      {A B : Type μ} {m : Exec S A} {f : A → Exec S B}
      → Keeps I m
      → ((a : A) → Keeps I (f a))
      → Keeps I (m >>= f)
  Keeps-bind {m = m} {f = f} h k = record {
    kept = λ s i. kept-bind_result f (m s).0 (m s).1 k (h.kept s i);
  }

  pub Keeps-caught : {m : Exec S (Unit {0})} → Keeps I m → Keeps I (caught m)
  Keeps-caught h = record { kept = λ s i. h.kept s i }

  pub Keeps-for_each {μ} :
      {A : Type μ} (xs : List A) {body : A → Exec S (Unit {0})}
      → ((a : A) → Keeps I (body a))
      → Keeps I (for_each xs body)
  unfolding for_each
  Keeps-for_each [] k = record { kept = λ s i. i }
  Keeps-for_each (x ∷ xs) k = Keeps-bind (k x) λ _. Keeps-for_each xs k
