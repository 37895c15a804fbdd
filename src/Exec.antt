-- ===== src/Exec.antt =====
-- Methods of an object that may throw. What a method wrote before it threw stays written.
pub mod Invariance
pub mod Triples
use sign_protocols.Prelude.{String, ◌≡◌, refl, ◌⊎◌, inl, inr, Bool, true, false, List, [], ◌∷◌}

pub data Result {ℓ} (A : Type ℓ) : Type ℓ where
  ok : A → Result A
  err : String → Result A

abbrev pub Exec {ℓ κ} : Type ℓ → Type κ → Type (ℓ ⊔ κ)
Exec S A = S → Result A × S

abbrev pub bind_result {ℓ κ} : {S : Type ℓ} {A B : Type κ} → (A → Exec S B) → Result A → Exec S B
bind_result f (ok a) s = f a s
bind_result f (err e) s = (err e, s)

infixl 5 ◌>>=◌ ◌>>◌
abbrev pub ◌>>=◌ {ℓ κ} : {S : Type ℓ} {A B : Type κ} → Exec S A → (A → Exec S B) → Exec S B
◌>>=◌ m f s = let (r, s') = m s in bind_result f r s'

abbrev pub ◌>>◌ {ℓ κ} : {S : Type ℓ} {A B : Type κ} → Exec S A → Exec S B → Exec S B
m >> k = m >>= λ _. k

abbrev pub pure {ℓ κ} : {S : Type ℓ} {A : Type κ} → A → Exec S A
pure a s = (ok a, s)

abbrev pub raise {ℓ κ} : {S : Type ℓ} {A : Type κ} → String → Exec S A
raise e s = (err e, s)

abbrev pub lift {ℓ κ} : {S : Type ℓ} {A : Type κ} → Result A → Exec S A
lift r s = (r, s)

abbrev pub gets {ℓ κ} : {S : Type ℓ} {A : Type κ} → (S → A) → Exec S A
gets f s = (ok (f s), s)

abbrev pub modifies {ℓ} : {S : Type ℓ} → (S → S) → Exec S (Unit {0})
modifies f s = (ok tt, f s)

abbrev pub skip {ℓ} : {S : Type ℓ} → Exec S (Unit {0})
skip s = (ok tt, s)

-- `try { … } catch (e) { log }`: the error is dropped, the writes stay.
abbrev pub caught {ℓ} : {S : Type ℓ} → Exec S (Unit {0}) → Exec S (Unit {0})
caught m s = (ok tt, (m s).1)

-- `try { … } catch (e) { handler }` where the handler does not throw
abbrev pub handled {ℓ} : {S : Type ℓ} → (S → S) → Result (Unit {0}) → S → S
handled handler (ok u) s = s
handled handler (err e) s = handler s

-- `for (const x of xs) await body(x)`
unfoldable pub for_each {ℓ κ} :
    {S : Type ℓ} {A : Type κ} → List A → (A → Exec S (Unit {0})) → Exec S (Unit {0})
for_each [] body = skip
for_each (x ∷ xs) body = let rest = for_each xs body in body x >> rest

-- To split on a test that may throw.
pub Result-cases : (r : Result Bool) → (r ≡ ok true) ⊎ (r ≡ ok false) ⊎ ((e : String) × (r ≡ err e))
Result-cases (ok true) = inl refl
Result-cases (ok false) = inr (inl refl)
Result-cases (err e) = inr (inr (e, refl))

pub Result-value {ℓ} :
    {A : Type ℓ} (r : Result A) → ((a : A) × (r ≡ ok a)) ⊎ ((e : String) × (r ≡ err e))
Result-value (ok a) = inl (a, refl)
Result-value (err e) = inr (e, refl)
