-- ===== src/Tss/Queueing.antt =====
-- Laws of the queue and of the cache of signatures.
use sign_protocols.Prelude.{
  ℕ, ◌+◌, ◌*◌, String, ◌≡◌, refl, Option, none, some, List, [], ◌∷◌, ◌++◌, Bool, true, false, not,
  ◌&&◌, any, arith, leb, keep_if, head?, Bool-cases, inl, inr, eq_iff, eq_refl, if◌then◌else◌, ◌==◌,
}
use sign_protocols.Tss.State.{Sign, SignResult, Tss}
use sign_protocols.Tss.Queue.{
  has_msg, get_sign, update_first, remove_sign, add_sign_to_cache, run_timers, expire_cache,
}
use sign_protocols.Prelude.Maps.{lookup-erase, lookup, erase}

pub head?-remove :
    (msg : String) (xs : List Sign)
    → head? (keep_if (has_msg msg) (keep_if (λ sign. not (has_msg msg sign)) xs)) ≡ none
head?-remove msg [] = refl
head?-remove msg (x ∷ xs) = ground (arith, head?-remove msg xs)

-- After `removeSign` the message is not in the queue, posted or not.
pub get_sign-remove_sign :
    (msg : String) (b : Bool) (s : Tss) → get_sign msg b (remove_sign msg s) ≡ none
unfolding get_sign remove_sign
get_sign-remove_sign msg b s = rw (head?-remove msg s.signs)

pub head?-update_first :
    (msg : String) (f : Sign → Sign) (xs : List Sign) (x : Sign)
    → has_msg msg (f x) ≡ true
    → head? (keep_if (has_msg msg) xs) ≡ some x
    → head? (keep_if (has_msg msg) (update_first msg f xs)) ≡ some (f x)
unfolding update_first
head?-update_first msg f [] x k h = cc
head?-update_first msg f (y ∷ xs) x k h = elim (Bool-cases (has_msg msg y)) [
  | inl e ↦ let same : y ≡ x = ground arith in rw (e, same, k)
  | inr e ↦ rw (e, e) (head?-update_first msg f xs x k (ground arith))
]

-- a timer for the message whose time has come
abbrev pub is_due : ℕ → String → ℕ × String → Bool
is_due now msg (due, message) = leb due now && message == msg

pub lookup-run_timers :
    (now : ℕ) (msg : String) (timers : List (ℕ × String)) (cache : List (String × SignResult))
    → lookup msg (run_timers now timers cache)
      ≡ (if any (is_due now msg) timers then none else lookup msg cache)
unfolding run_timers
lookup-run_timers now msg [] cache = refl
lookup-run_timers now msg ((due, m) ∷ timers) cache = elim (Bool-cases (leb due now)) [
  | inl e ↦
      ground (arith, lookup-run_timers now msg timers (erase m cache), lookup-erase m msg cache)
  | inr e ↦ ground (arith, lookup-run_timers now msg timers cache)
]

-- A message that has no signature in the cache and no timer.
abbrev pub IsUncached : String → Tss → Type 0
IsUncached msg s =
    (lookup msg s.sign_cache ≡ none) × (any (λ (t : ℕ × String). t.1 == msg) s.cache_timers ≡ false)

any-append :
    (now : ℕ) (msg : String) (due : ℕ) (timers : List (ℕ × String))
    → any (λ (t : ℕ × String). t.1 == msg) timers ≡ false
    → any (is_due now msg) (timers ++ (due, msg) ∷ []) ≡ leb due now
any-append now msg due [] h = ground (arith, eq_refl msg)
any-append now msg due (t ∷ timers) h = ground (arith, any-append now msg due timers)

-- A signature stays in the cache until its time to live has passed, and not longer: added at
-- `now` for a message without one, it is found at every time before `now` plus the time to live,
-- and at no later time.
pub lookup-expire_cache :
    (now later : ℕ) (msg : String) (result : SignResult) (s : Tss)
    → IsUncached msg s
    → lookup msg (expire_cache later (add_sign_to_cache now msg result s)).sign_cache
      ≡ (if leb (now + s.sign_cache_ttl_seconds * 1000) later then none else some result)
unfolding expire_cache add_sign_to_cache lookup
lookup-expire_cache now later msg result s u = ground (
  arith,
  u.0,
  u.1,
  lookup-run_timers later msg (s.cache_timers ++ (now + s.sign_cache_ttl_seconds * 1000, msg) ∷ [])
      ((msg, result) ∷ s.sign_cache),
  any-append later msg (now + s.sign_cache_ttl_seconds * 1000) s.cache_timers,
  eq_refl msg,
)

abbrev pub first_of_two : Option SignResult → SignResult → SignResult
first_of_two none result = result
first_of_two (some old) result = old

-- What is in the cache is not replaced: after an addition every message has the signature that it
-- had, and only a message without one gets the new one.
pub lookup-add_sign_to_cache :
    (now : ℕ) (msg k : String) (result : SignResult) (s : Tss)
    → lookup k (add_sign_to_cache now msg result s).sign_cache ≡ (
        if msg == k
        then some (first_of_two (lookup msg s.sign_cache) result)
        else lookup k s.sign_cache)
unfolding add_sign_to_cache lookup
lookup-add_sign_to_cache now msg k result s = ground (arith, eq_iff msg k)
