-- ===== src/MultiSig/Queue/Keys.antt =====
-- The cached key and prover: what does not look at them is kept by the methods that fill them.
use sign_protocols.Exec.{Result, ok, err, Result-value}
use sign_protocols.Prelude.{
  arith, ◌≡◌, sym, ap, ◌∙◌, inl, inr, Option-cases, when_truthy, String, Option, none, some, [],
  ◌∷◌,
}
use sign_protocols.Exec.Triples.{
  Gives, Anything, Gives-bind, Gives-lift_bind, Gives-read, Gives-modifies, Gives-pure, Gives-raise,
  Gives-skip,
}
use sign_protocols.MultiSig.Ergo.{ErgoLib}
use sign_protocols.MultiSig.State.{MultiSig}
use sign_protocols.MultiSig.Queue.{
  derive_public_key, check_public_key, known_or_derived, get_pk, make_prover, get_prover,
}

module _ {E : ErgoLib} {I : MultiSig E → Type 0} where
  check_public_key-Gives : (known : Option String) → Gives I Anything (check_public_key known)
  unfolding check_public_key
  check_public_key-Gives none = Gives-raise _
  check_public_key-Gives (some key) = Gives-pure key tt

module _ {E : ErgoLib} {I : MultiSig E → Type 0}
    (cached : (key : String) (s : MultiSig E) → I s → I (record s { public_key = some key })) where
  derive_public_key-Gives : Gives I Anything derive_public_key
  unfolding derive_public_key
  derive_public_key-Gives = Gives-bind (Gives-read (λ s. s.secret_hex)) λ hex _.
      Gives-lift_bind (E.dlog_from_bytes hex) λ key.
        Gives-modifies (λ s. record s { public_key = some (E.address_content key) })
          (cached (E.address_content key))

  known_or_derived-Gives : (known : Option String) → Gives I Anything (known_or_derived known)
  unfolding known_or_derived
  known_or_derived-Gives none = derive_public_key-Gives
  known_or_derived-Gives (some key) = Gives-skip

  pub get_pk-Gives : Gives I Anything get_pk
  unfolding get_pk
  get_pk-Gives = Gives-bind (Gives-read (λ s. when_truthy s.public_key)) λ known _.
      Gives-bind (known_or_derived-Gives known) λ _ _.
        Gives-bind (Gives-read (λ s. when_truthy s.public_key)) λ key _. check_public_key-Gives key

module _ {E : ErgoLib} {I : MultiSig E → Type 0}
    (cached : (prover : E.Wallet) (s : MultiSig E)
      → I s
      → I (record s { prover = some prover })) where
  make_prover-Gives : (known : Option E.Wallet) → Gives I Anything (make_prover known)
  unfolding make_prover
  make_prover-Gives (some prover) = Gives-pure prover tt
  make_prover-Gives none = Gives-bind (Gives-read (λ s. s.secret_hex)) λ hex _.
      Gives-lift_bind (E.dlog_from_bytes hex) λ key.
        let prover = E.from_secrets (key ∷ []) in
        Gives-bind (Gives-modifies (λ s. record s { prover = some prover }) (cached prover))
          λ _ _. Gives-pure prover tt

  pub get_prover-Gives : Gives I Anything get_prover
  unfolding get_prover
  get_prover-Gives = Gives-bind (Gives-read (λ s. s.prover)) λ known _. make_prover-Gives known

module _ (E : ErgoLib) where
  own_key : String → Option String → Result String
  own_key hex (some key) = ok key
  own_key hex none = elim (E.dlog_from_bytes hex) [
    | err e ↦ err e
    | ok key ↦ elim (when_truthy (some (E.address_content key))) [
      | none ↦ err "Cannot derive public key in MultiSig"
      | some pub_key ↦ ok pub_key
    ]
  ]

  own_wallet : String → Option E.Wallet → Result E.Wallet
  own_wallet hex (some prover) = ok prover
  own_wallet hex none = elim (E.dlog_from_bytes hex) [
    | err e ↦ err e
    | ok key ↦ ok (E.from_secrets (key ∷ []))
  ]

module _ {E : ErgoLib} where
  get_pk-own_key :
      (s : MultiSig E) → (get_pk s).0 ≡ own_key E s.secret_hex (when_truthy s.public_key)
  unfolding get_pk known_or_derived check_public_key derive_public_key own_key
  get_pk-own_key s = elim (Option-cases (when_truthy s.public_key)) [
    | inr (key, e) ↦ ground (arith, e)
    | inl e ↦ elim (Result-value (E.dlog_from_bytes s.secret_hex)) [
      | inr (x, f) ↦ ground (arith, e, f)
      | inl (key, f) ↦ elim (Option-cases (when_truthy (some (E.address_content key)))) [
        | inl g ↦ ground (arith, e, f, g)
        | inr (pub_key, g) ↦ ground (arith, e, f, g)
      ]
    ]
  ]

  get_prover-own_wallet : (s : MultiSig E) → (get_prover s).0 ≡ own_wallet E s.secret_hex s.prover
  unfolding get_prover make_prover own_wallet
  get_prover-own_wallet s = elim (Option-cases s.prover) [
    | inr (prover, e) ↦ ground (arith, e)
    | inl e ↦ elim (Result-value (E.dlog_from_bytes s.secret_hex)) [
      | inr (x, f) ↦ ground (arith, e, f)
      | inl (key, f) ↦ ground (arith, e, f)
    ]
  ]

  -- The key and the prover are those of the secret and the caches.
  pub get_pk-same :
      (s s0 : MultiSig E)
      → s.secret_hex ≡ s0.secret_hex
      → s.public_key ≡ s0.public_key
      → (get_pk s).0 ≡ (get_pk s0).0
  get_pk-same s s0 h k =
      get_pk-own_key s
      ∙ ap (λ hex. own_key E hex (when_truthy s.public_key)) h
      ∙ ap (λ known. own_key E s0.secret_hex (when_truthy known)) k
      ∙ sym (get_pk-own_key s0)

  pub get_prover-same :
      (s s0 : MultiSig E)
      → s.secret_hex ≡ s0.secret_hex
      → s.prover ≡ s0.prover
      → (get_prover s).0 ≡ (get_prover s0).0
  get_prover-same s s0 h k =
      get_prover-own_wallet s
      ∙ ap (λ hex. own_wallet E hex s.prover) h
      ∙ ap (λ known. own_wallet E s0.secret_hex known) k
      ∙ sym (get_prover-own_wallet s0)
