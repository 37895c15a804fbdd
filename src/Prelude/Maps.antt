-- ===== src/Prelude/Maps.antt =====
-- The language's objects and maps with texts as keys, as lists of entries in the order in which
-- the keys were set.
use Prim.Native.String.{String}
use mathlib.Core.Path.{◌≡◌, refl}
use mathlib.Core.Bool.{false, cond}
use mathlib.Core.List.{List, [], ◌∷◌, map}
use mathlib.Core.Option.{Option, none, some}
use native.Mathlib.Omega.{arith}
use text.Mathlib.Text.{◌==◌}
use text.Mathlib.TextEquality.{eq_iff}
use sign_protocols.Prelude.Lists.{any, AllDiffer}

abbrev pub Entries {ℓ} : Type ℓ → Type ℓ
Entries V = List (String × V)

module _ {ℓ} {V : Type ℓ} where
  -- `m[key]`, `m.get(key)`
  unfoldable pub lookup : String → Entries V → Option V
  lookup k [] = none
  lookup k ((j, v) ∷ m) = cond (j == k) (some v) (lookup k m)

  -- `delete m[key]`, `m.delete(key)`
  unfoldable pub erase : String → Entries V → Entries V
  erase k [] = []
  erase k ((j, v) ∷ m) = cond (j == k) (erase k m) ((j, v) ∷ erase k m)

  -- `m[key] = value`, `m.set(key, value)`: a key that is there keeps its place
  unfoldable pub insert : String → V → Entries V → Entries V
  insert k v [] = (k, v) ∷ []
  insert k v ((j, w) ∷ m) = cond (j == k) ((j, v) ∷ m) ((j, w) ∷ insert k v m)

  abbrev pub keys : Entries V → List String
  keys m = map (λ e. e.0) m

  abbrev pub values : Entries V → List V
  values m = map (λ e. e.1) m

  pub lookup-erase :
      (k j : String) (m : Entries V) → lookup j (erase k m) ≡ cond (k == j) none (lookup j m)
  unfolding lookup erase
  lookup-erase k j [] = ground arith
  lookup-erase k j ((i, v) ∷ m) =
      ground (arith, lookup-erase k j m, eq_iff i k, eq_iff i j, eq_iff k j)

  pub lookup-insert :
      (k j : String) (v : V) (m : Entries V)
      → lookup j (insert k v m) ≡ cond (k == j) (some v) (lookup j m)
  unfolding lookup insert
  lookup-insert k j v [] = ground arith
  lookup-insert k j v ((i, w) ∷ m) =
      ground (arith, lookup-insert k j v m, eq_iff i k, eq_iff i j, eq_iff k j)

  any-erase :
      (k x : String) (m : Entries V)
      → any (λ y. y == x) (keys m) ≡ false
      → any (λ y. y == x) (keys (erase k m)) ≡ false
  unfolding erase
  any-erase k x [] h = refl
  any-erase k x ((i, w) ∷ m) h = ground (arith, any-erase k x m)

  pub erase-AllDiffer :
      (k : String) (m : Entries V) → AllDiffer (keys m) → AllDiffer (keys (erase k m))
  unfolding erase
  erase-AllDiffer k [] d = tt
  erase-AllDiffer k ((i, w) ∷ m) d = ground (arith, erase-AllDiffer k m, any-erase k i m)

  any-insert :
      (k x : String) (v : V) (m : Entries V)
      → (k == x) ≡ false
      → any (λ y. y == x) (keys m) ≡ false
      → any (λ y. y == x) (keys (insert k v m)) ≡ false
  unfolding insert
  any-insert k x v [] e h = ground arith
  any-insert k x v ((i, w) ∷ m) e h = ground (arith, any-insert k x v m)

  pub insert-AllDiffer :
      (k : String) (v : V) (m : Entries V) → AllDiffer (keys m) → AllDiffer (keys (insert k v m))
  unfolding insert
  insert-AllDiffer k v [] d = (refl, tt)
  insert-AllDiffer k v ((i, w) ∷ m) d =
      ground (arith, insert-AllDiffer k v m, any-insert k i v m, eq_iff i k, eq_iff k i)
