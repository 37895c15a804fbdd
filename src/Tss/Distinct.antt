-- ===== src/Tss/Distinct.antt =====
-- Repetitions in the queue, and the changes of a queue.
use sign_protocols.Prelude.{
  ℕ, String, ◌≡◌, refl, sym, none, List, [], ◌∷◌, ◌++◌, Bool, true, false, not, map, any, arith,
  keep_if, head?, Bool-cases, Option-cases, inl, inr, ◌==◌,
}
use mathlib.Core.Path.{subst}
use sign_protocols.Prelude.{AllDiffer, append-AllDiffer}
use sign_protocols.Exec.{Result, Exec, modifies, pure, skip, lift, gets}
use sign_protocols.Communicator.{Communicator}
use sign_protocols.Detection.State.{GuardDetection}
use sign_protocols.Exec.Invariance.{Keeps}
use sign_protocols.Tss.State.{Sign, SignPayload, SignResult, Retry, Tss, on_comm, on_detection}
use sign_protocols.Tss.Queue.{
  has_msg, get_sign, update_first, update_sign, remove_sign, add_sign_to_cache,
}

abbrev pub messages : List Sign → List String
messages signs = map (λ sign. sign.msg) signs

-- no message stands twice in the queue
abbrev pub IsDistinct : Tss → Type 0
IsDistinct s = AllDiffer (messages s.signs)

messages-update_first :
    (msg : String) (f : Sign → Sign) (signs : List Sign)
    → ((sign : Sign) → (f sign).msg ≡ sign.msg)
    → messages (update_first msg f signs) ≡ messages signs
unfolding update_first
messages-update_first msg f [] k = refl
messages-update_first msg f (x ∷ signs) k = ground (arith, k x, messages-update_first msg f signs k)

absent-keep_if :
    (p : Sign → Bool) (msg : String) (signs : List Sign)
    → any (λ y. y == msg) (messages signs) ≡ false
    → any (λ y. y == msg) (messages (keep_if p signs)) ≡ false
absent-keep_if p msg [] h = refl
absent-keep_if p msg (x ∷ signs) h = ground (arith, absent-keep_if p msg signs)

pub keep_if-AllDiffer :
    (p : Sign → Bool) (signs : List Sign)
    → AllDiffer (messages signs)
    → AllDiffer (messages (keep_if p signs))
keep_if-AllDiffer p [] d = tt
keep_if-AllDiffer p (x ∷ signs) d = elim (Bool-cases (p x)) [
  | inl e ↦ rw e (absent-keep_if p x.msg signs d.0, keep_if-AllDiffer p signs d.1)
  | inr e ↦ rw e (keep_if-AllDiffer p signs d.1)
]

messages-append :
    (signs : List Sign) (sign : Sign)
    → messages (signs ++ sign ∷ []) ≡ messages signs ++ sign.msg ∷ []
messages-append [] sign = refl
messages-append (x ∷ signs) sign = ground (arith, messages-append signs sign)

absent-head? :
    (msg : String) (signs : List Sign)
    → head? (keep_if (has_msg msg) signs) ≡ none
    → any (λ y. y == msg) (messages signs) ≡ false
absent-head? msg [] h = refl
absent-head? msg (x ∷ signs) h = ground (arith, absent-head? msg signs)

-- A message that `getSign` does not find, posted or not, can be appended.
pub append-IsDistinct :
    (s : Tss) (sign : Sign)
    → get_sign sign.msg true s ≡ none
    → IsDistinct s
    → AllDiffer (messages (s.signs ++ sign ∷ []))
unfolding get_sign
append-IsDistinct s sign h d = subst AllDiffer (sym (messages-append s.signs sign)) (
    append-AllDiffer sign.msg (messages s.signs)
      (absent-head? sign.msg s.signs
        (elim (Option-cases (head? (keep_if (has_msg sign.msg) s.signs))) [
          | inl e ↦ e
          | inr (x, e) ↦ ground (arith, h, e)
        ]))
      d)

pub update_sign-IsDistinct :
    (msg : String) (f : Sign → Sign) (s : Tss)
    → ((sign : Sign) → (f sign).msg ≡ sign.msg)
    → IsDistinct s
    → IsDistinct (update_sign msg f s)
update_sign-IsDistinct msg f s k d = subst AllDiffer (sym (messages-update_first msg f s.signs k)) d

pub remove_sign-IsDistinct : (msg : String) → Keeps IsDistinct (modifies (remove_sign msg))
unfolding remove_sign
remove_sign-IsDistinct msg = record {
  kept = λ s d. keep_if-AllDiffer (λ sign. not (has_msg msg sign)) s.signs d;
}

pub signs-add_sign_to_cache :
    (now : ℕ) (msg : String) (result : SignResult) (s : Tss)
    → (add_sign_to_cache now msg result s).signs ≡ s.signs
unfolding add_sign_to_cache
signs-add_sign_to_cache now msg result s = ground arith

-- The base class and the detection do not see the queue.
pub on_comm-IsDistinct :
    {A : Type 0} (m : Exec (Communicator SignPayload) A) → Keeps IsDistinct (on_comm m)
on_comm-IsDistinct m = record { kept = λ s d. d }

pub on_detection-IsDistinct :
    {A : Type 0} (m : Exec (GuardDetection Retry) A) → Keeps IsDistinct (on_detection m)
on_detection-IsDistinct m = record { kept = λ s d. d }

pub Keeps-pure : {A : Type 0} (a : A) → Keeps IsDistinct (pure a)
Keeps-pure a = record { kept = λ s d. d }

pub Keeps-skip : Keeps IsDistinct skip
Keeps-skip = record { kept = λ s d. d }

pub Keeps-lift : {A : Type 0} (r : Result A) → Keeps IsDistinct (lift r)
Keeps-lift r = record { kept = λ s d. d }

pub Keeps-gets : {A : Type 0} (f : Tss → A) → Keeps IsDistinct (gets f)
Keeps-gets f = record { kept = λ s d. d }
