-- ===== src/Exec/Triples.antt =====
-- What a method leaves true of a state and says of its answer: the rules for the ways methods are
-- put together.
use sign_protocols.Prelude.{String, ◌≡◌, refl, Bool, true, false, List, [], ◌∷◌, if◌then◌else◌}
use sign_protocols.Exec.{
  Result, ok, err, Exec, ◌>>=◌, bind_result, pure, lift, gets, modifies, skip, raise, caught,
  for_each,
}
use sign_protocols.Exec.Invariance.{Keeps}

-- An answer, when there is one, is as `Q` says.
abbrev pub Answers {ℓ κ} : {A : Type ℓ} → (A → Type κ) → Result A → Type κ
Answers Q (ok a) = Q a
Answers Q (err e) = Unit

-- from a state with `I` the method ends in a state with `I`, with an answer as `Q` says or a throw
pub record Gives {ℓ κ μ ν} {S : Type ℓ} {A : Type μ} (I : S → Type κ) (Q : A → Type ν)
    (m : Exec S A) : Type (ℓ ⊔ κ ⊔ ν) where
  pub given : (s : S) → I s → Answers Q (m s).0 × I (m s).1

abbrev pub Anything {ℓ} : {A : Type ℓ} → A → Type 0
Anything a = Unit

Answers-lift {μ ν} :
    {A : Type μ} {Q : A → Type ν} (r : Result A) → ((a : A) → r ≡ ok a → Q a) → Answers Q r
Answers-lift (ok a) k = k a refl
Answers-lift (err e) k = tt

pub Answers-Anything {ℓ} : {A : Type ℓ} (r : Result A) → Answers Anything r
Answers-Anything (ok a) = tt
Answers-Anything (err e) = tt

module _ {ℓ κ} {S : Type ℓ} {I : S → Type κ} where
  given-bind_result {μ ν ξ} :
      {A B : Type μ} {Q : A → Type ν} {R : B → Type ξ} (f : A → Exec S B) (r : Result A) (s : S)
      → ((a : A) → Q a → Gives I R (f a))
      → Answers Q r
      → I s
      → Answers R (bind_result f r s).0 × I (bind_result f r s).1
  given-bind_result f (ok a) s k q i = (k a q).given s i
  given-bind_result f (err e) s k q i = (tt, i)

  pub Gives-bind {μ ν ξ} :
      {A B : Type μ} {Q : A → Type ν} {R : B → Type ξ} {m : Exec S A} {f : A → Exec S B}
      → Gives I Q m
      → ((a : A) → Q a → Gives I R (f a))
      → Gives I R (m >>= f)
  Gives-bind {m = m} {f = f} h k = record {
    given = λ s i. let (q, i') = h.given s i in given-bind_result f (m s).0 (m s).1 k q i';
  }

  pub Gives-pure {μ ν} : {A : Type μ} {Q : A → Type ν} (a : A) → Q a → Gives I Q (pure a)
  Gives-pure a q = record { given = λ s i. (q, i) }

  pub Gives-raise {μ ν} : {A : Type μ} {Q : A → Type ν} (e : String) → Gives I Q (raise e)
  Gives-raise e = record { given = λ s i. (tt, i) }

  pub Gives-skip : Gives I Anything skip
  Gives-skip = record { given = λ s i. (tt, i) }

  pub Gives-lift {μ ν} :
      {A : Type μ} {Q : A → Type ν} (r : Result A) → ((a : A) → r ≡ ok a → Q a) → Gives I Q (lift r)
  Gives-lift r k = record { given = λ s i. (Answers-lift r k, i) }

  -- a part that may throw, and the rest with its answer
  pub Gives-lift_bind {μ ν} :
      {A B : Type μ} {R : B → Type ν} (r : Result A) {f : A → Exec S B}
      → ((a : A) → Gives I R (f a))
      → Gives I R (lift r >>= f)
  Gives-lift_bind r {f = f} k = record {
    given = λ s i. given-bind_result {Q = Anything} f r s (λ a _. k a) (Answers-Anything r) i;
  }

  -- a part that throws, and a rest that is not run
  pub Gives-throw {μ ν} :
      {A B : Type μ} {R : B → Type ν} (r : Result A) (f : A → Exec S B) (e : String)
      → r ≡ err e
      → Gives I R (lift r >>= f)
  Gives-throw r f e h = record { given = λ s i. rw h (tt, i) }

  pub Gives-read {μ} : {A : Type μ} (f : S → A) → Gives I Anything (gets f)
  Gives-read f = record { given = λ s i. (tt, i) }

  pub Gives-gets {μ ν} :
      {A : Type μ} {Q : A → Type ν} (f : S → A) → ((s : S) → I s → Q (f s)) → Gives I Q (gets f)
  Gives-gets f k = record { given = λ s i. (k s i, i) }

  pub Gives-modifies : (f : S → S) → ((s : S) → I s → I (f s)) → Gives I Anything (modifies f)
  Gives-modifies f k = record { given = λ s i. (tt, k s i) }

  pub Gives-if {μ ν} :
      {A : Type μ} {Q : A → Type ν} (b : Bool) {m k : Exec S A}
      → (b ≡ true → Gives I Q m)
      → (b ≡ false → Gives I Q k)
      → Gives I Q (if b then m else k)
  Gives-if true h k = h refl
  Gives-if false h k = k refl

  pub Gives-caught {ν} :
      {Q : Unit {0} → Type ν} {m : Exec S (Unit {0})} → Gives I Q m → Gives I Anything (caught m)
  Gives-caught h = record { given = λ s i. (tt, (h.given s i).1) }

  pub Gives-for_each {μ} :
      {A : Type μ} (xs : List A) {body : A → Exec S (Unit {0})}
      → ((a : A) → Gives I Anything (body a))
      → Gives I Anything (for_each xs body)
  unfolding for_each
  Gives-for_each [] k = Gives-skip
  Gives-for_each (x ∷ xs) k = Gives-bind (k x) λ _ _. Gives-for_each xs k

  pub Keeps-Gives {μ ν} : {A : Type μ} {Q : A → Type ν} {m : Exec S A} → Gives I Q m → Keeps I m
  Keeps-Gives h = record { kept = λ s i. (h.given s i).1 }

-- what a method leads to, which its first parts need not keep
pub record Leads {ℓ κ μ ν} {S : Type ℓ} {A : Type μ} (I : S → Type κ) (J : S → Type ν)
    (m : Exec S A) : Type (ℓ ⊔ κ ⊔ ν) where
  pub led : (s : S) → I s → J (m s).1

module _ {ℓ κ ν} {S : Type ℓ} {I : S → Type κ} {J : S → Type ν} (sub : (s : S) → I s → J s) where
  led-bind_result {μ ξ} :
      {A B : Type μ} {Q : A → Type ξ} (f : A → Exec S B) (r : Result A) (s : S)
      → ((a : A) → Q a → Leads I J (f a))
      → Answers Q r
      → I s
      → J (bind_result f r s).1
  led-bind_result f (ok a) s k q i = (k a q).led s i
  led-bind_result f (err e) s k q i = sub s i

  pub Leads-bind {μ ξ} :
      {A B : Type μ} {Q : A → Type ξ} {m : Exec S A} {f : A → Exec S B}
      → Gives I Q m
      → ((a : A) → Q a → Leads I J (f a))
      → Leads I J (m >>= f)
  Leads-bind {m = m} {f = f} h k = record {
    led = λ s i. let (q, i') = h.given s i in led-bind_result f (m s).0 (m s).1 k q i';
  }

  pub Leads-lift_bind {μ} :
      {A B : Type μ} (r : Result A) {f : A → Exec S B}
      → ((a : A) → r ≡ ok a → Leads I J (f a))
      → Leads I J (lift r >>= f)
  Leads-lift_bind r {f = f} k = record {
    led = λ s i. led-bind_result {Q = λ a. r ≡ ok a} f r s k (Answers-lift r (λ _ e. e)) i;
  }

  pub Leads-Gives {μ ξ} : {A : Type μ} {Q : A → Type ξ} {m : Exec S A} → Gives I Q m → Leads I J m
  Leads-Gives {m = m} h = record { led = λ s i. sub (m s).1 (h.given s i).1 }

module _ {ℓ κ ν} {S : Type ℓ} {I : S → Type κ} {J : S → Type ν} where
  pub Leads-caught : {m : Exec S (Unit {0})} → Leads I J m → Leads I J (caught m)
  Leads-caught h = record { led = λ s i. h.led s i }

  pub Leads-if {μ} :
      {A : Type μ} (b : Bool) {m k : Exec S A}
      → (b ≡ true → Leads I J m)
      → (b ≡ false → Leads I J k)
      → Leads I J (if b then m else k)
  Leads-if true h k = h refl
  Leads-if false h k = k refl

  pub Leads-weaken {μ ξ} :
      {A : Type μ} {J' : S → Type ξ} {m : Exec S A}
      → ((s : S) → J s → J' s)
      → Leads I J m
      → Leads I J' m
  Leads-weaken {m = m} k h = record { led = λ s i. k (m s).1 (h.led s i) }

  -- a first part whose answer is known, and what it leaves
  pub Leads-step {μ ξ} :
      {A B : Type μ} {I' : S → Type ξ} (m : Exec S A) {f : A → Exec S B} (a0 : A)
      → ((s : S) → I s → ((m s).0 ≡ ok a0) × I' (m s).1)
      → ((a : A) → a ≡ a0 → Leads I' J (f a))
      → Leads I J (m >>= f)
  Leads-step m a0 h k = record {
    led = λ s i. let (e, i') = h s i in rw e ((k a0 refl).led (m s).1 i');
  }
