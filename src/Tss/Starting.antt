-- ===== src/Tss/Starting.antt =====
-- `startSign` and the open signs of the queue.
use sign_protocols.Prelude.{
  String, ◌≡◌, ◌⊎◌, inl, inr, none, some, List, [], ◌∷◌, ◌++◌, Bool, true, false, not, arith,
  keep_if, head?, Option-cases, eq_iff, eq_refl,
}
use sign_protocols.Communicator.{get_date}
use sign_protocols.Detection.State.{ActiveGuard}
use sign_protocols.Tss.State.{Sign, Tss}
use sign_protocols.Tss.Queue.{has_msg, get_sign, update_first, update_sign}
use sign_protocols.Tss.Approved.{SignerHost, start_sign, sign_data}
use sign_protocols.Tss.Queueing.{head?-remove, head?-update_first}

head?-keep_if {ℓ} :
    {A : Type ℓ} (p : A → Bool) (xs : List A) (x : A) → head? (keep_if p xs) ≡ some x → p x ≡ true
head?-keep_if p [] x h = cc
head?-keep_if p (y ∷ xs) x h = ground (arith, head?-keep_if p xs x)

-- what an open sign that is found satisfies
pub get_sign-found :
    (msg : String) (s : Tss) (sign : Sign)
    → get_sign msg false s ≡ some sign
    → (head? (keep_if (has_msg msg) s.signs) ≡ some sign) × (sign.posted ≡ false) × (sign.msg ≡ msg)
unfolding get_sign
get_sign-found msg s sign h = elim (Option-cases (head? (keep_if (has_msg msg) s.signs))) [
  | inl e ↦ ground arith
  | inr (x, e) ↦ ground (arith, head?-keep_if (has_msg msg) s.signs x e, eq_iff x.msg msg)
]

module _ (host : SignerHost) where
  -- what `startSign` leaves in the queue
  start_sign-some :
      (msg : String) (guards : List ActiveGuard) (s : Tss) (sign : Sign)
      → get_sign msg false s ≡ some sign
      → ((start_sign host msg guards s).signs
          ≡ update_first msg (λ sign. record sign { posted = true }) s.signs)
        ⊎ ((start_sign host msg guards s).signs
            ≡ keep_if
                (λ item. not (has_msg sign.msg item))
                (update_first msg (λ sign. record sign { posted = true }) s.signs))
  unfolding start_sign
  start_sign-some msg guards s sign e =
      elim (Option-cases (host.api.sign (sign_data (get_date host.node.now) s sign msg guards))) [
        | inl f ↦ inl (ground arith)
        | inr (code, f) ↦ inr (ground arith)
      ]

  pub start_sign-none :
      (msg : String) (guards : List ActiveGuard) (s : Tss)
      → get_sign msg false s ≡ none
      → start_sign host msg guards s ≡ s
  unfolding start_sign
  start_sign-none msg guards s e = rw e

  -- After `startSign` the message is not open: it is posted, or it is gone.
  pub get_sign-start_sign :
      (msg : String) (guards : List ActiveGuard) (s : Tss)
      → get_sign msg false (start_sign host msg guards s) ≡ none
  get_sign-start_sign msg guards s = elim (Option-cases (get_sign msg false s)) [
    | inl e ↦ rw (start_sign-none msg guards s e) e
    | inr (sign, e) ↦
        let (h, p, m) = get_sign-found msg s sign e in
        elim (start_sign-some msg guards s sign e) [
          | inl q ↦
              unfold get_sign in
              rw q (
                rw (
                  head?-update_first msg (λ sign. record sign { posted = true }) s.signs sign
                    (rw m (eq_refl msg)) h))
          | inr q ↦
              unfold get_sign in
              rw (q, m)
                (rw (
                  head?-remove msg
                    (update_first msg (λ sign. record sign { posted = true }) s.signs)))
        ]
  ]

  -- A second `startSign` for the same message does nothing, whatever its guards are: a message in
  -- the queue is posted to the tss service at most once.
  pub start_sign-start_sign :
      (msg : String) (guards others : List ActiveGuard) (s : Tss)
      → start_sign host msg others (start_sign host msg guards s) ≡ start_sign host msg guards s
  start_sign-start_sign msg guards others s =
      start_sign-none msg others _ (get_sign-start_sign msg guards s)

  -- the effect on the posts
  pub posts-start_sign :
      (msg : String) (guards : List ActiveGuard) (s : Tss) (sign : Sign)
      → get_sign msg false s ≡ some sign
      → (start_sign host msg guards s).posts
        ≡ s.posts ++ sign_data (get_date host.node.now) s sign msg guards ∷ []
  unfolding start_sign
  posts-start_sign msg guards s sign e = ground arith

-- An open sign that is changed in place is found again.
pub get_sign-update_sign :
    (msg : String) (f : Sign → Sign) (s : Tss) (sign : Sign)
    → get_sign msg false s ≡ some sign
    → (f sign).msg ≡ sign.msg
    → (f sign).posted ≡ sign.posted
    → get_sign msg false (update_sign msg f s) ≡ some (f sign)
unfolding get_sign
get_sign-update_sign msg f s sign e m p =
    let (h, q, n) = get_sign-found msg s sign e in
    rw (head?-update_first msg f s.signs sign (rw (m, n) (eq_refl msg)) h, p, q)
