-- ===== src/Tss/Settling.antt =====
-- How a message leaves the queue, and what its caller hears.
use sign_protocols.Prelude.{
  String, ◌≡◌, refl, ap, ◌∙◌, ◌⊎◌, inl, inr, Option, none, some, [], ◌∷◌, ◌++◌, true, false, arith,
  Bool-cases, Option-cases,
}
use sign_protocols.Exec.{ok, err, Result-cases}
use sign_protocols.Tss.State.{Sign, SignResult, Call, Tss}
use sign_protocols.Tss.Queue.{get_sign, remove_sign, call_back}
use sign_protocols.Tss.Schemes.{Scheme, ecdsa, eddsa, handle_successful_sign, settle}
use sign_protocols.Tss.Approved.{SignerHost}
use sign_protocols.Tss.Results.{
  StatusEnum, success, failed, handle_sign_data, handle_sign_cached_message,
  get_pk_and_verify_signature, wrapped_handle_successful_sign,
}
use sign_protocols.Tss.Queueing.{get_sign-remove_sign}

module _ (host : SignerHost) where
  handle_sign_data-removes :
      (status : StatusEnum) (msg : String) (signature recovery error : Option String) (s : Tss)
      → (handle_sign_data host status msg signature recovery error s).0 ≡ ok tt
      → (t : Tss) × ((handle_sign_data host status msg signature recovery error s).1
          ≡ remove_sign msg t)
  unfolding handle_sign_data
  handle_sign_data-removes status msg signature recovery error s h =
      elim (Option-cases (get_sign msg true s)) [
        | inl e ↦ ground arith
        | inr (sign, e) ↦ elim (Bool-cases sign.posted) [
          | inr p ↦ ground arith
          | inl p ↦ removed status sign e p h
        ]
      ]
    where
      removed :
          (st : StatusEnum) (sign : Sign)
          → get_sign msg true s ≡ some sign
          → sign.posted ≡ true
          → (handle_sign_data host st msg signature recovery error s).0 ≡ ok tt
          → (t : Tss) × ((handle_sign_data host st msg signature recovery error s).1
              ≡ remove_sign msg t)
      removed success sign e p h =
          ((wrapped_handle_successful_sign host sign signature recovery s).1, ground arith)
      removed failed sign e p h = (call_back sign.callback false error none none s, ground arith)

  handle_sign_data-none :
      (status : StatusEnum) (msg : String) (signature recovery error : Option String) (s : Tss)
      → get_sign msg true s ≡ none
      → handle_sign_data host status msg signature recovery error s ≡ (err "Invalid message", s)
  unfolding handle_sign_data
  handle_sign_data-none status msg signature recovery error s e = rw e

  -- An answer of the tss service is taken once: after one that was taken, every further answer for
  -- the same message throws `Invalid message` and changes nothing.
  pub handle_sign_data-once :
      (status status' : StatusEnum) (msg : String)
      (signature recovery error signature' recovery' error' : Option String) (s : Tss)
      → (handle_sign_data host status msg signature recovery error s).0 ≡ ok tt
      → let s' = (handle_sign_data host status msg signature recovery error s).1 in
        handle_sign_data host status' msg signature' recovery' error' s'
        ≡ (err "Invalid message", s')
  handle_sign_data-once status status' msg signature recovery error signature' recovery' error' s
        h =
      let (t, e) = handle_sign_data-removes status msg signature recovery error s h in
      handle_sign_data-none status' msg signature' recovery' error' _
        (ap (get_sign msg true) e ∙ get_sign-remove_sign msg true t)

  -- A signature from another guard's cache is taken only if it verifies: a cached message either
  -- changes nothing, or its message is in the queue and not posted, and the signature verifies
  -- under the public key that the tss service gives for the message's chain code and path.
  pub handle_sign_cached_message-verified :
      (msg : String) (result : SignResult) (s : Tss)
      → ((handle_sign_cached_message host msg result s).1 ≡ s)
        ⊎ ((sign : Sign) × (get_sign msg false s ≡ some sign)
            × (get_pk_and_verify_signature host s.signing_crypto sign.msg result.signature
                  sign.chain_code sign.derivation_path
                ≡ ok true))
  unfolding handle_sign_cached_message
  handle_sign_cached_message-verified msg result s = elim (Option-cases (get_sign msg false s)) [
    | inl e ↦ inl (ground arith)
    | inr (sign, e) ↦
        elim (Result-cases (
          get_pk_and_verify_signature host s.signing_crypto sign.msg result.signature
            sign.chain_code sign.derivation_path)) [
              | inl v ↦ inr (sign, e, v)
              | inr (inl v) ↦ inl (ground arith)
              | inr (inr (x, v)) ↦ inl (ground arith)
            ]
  ]

-- The call that a successful signature makes settles the promise with that signature: whenever
-- `handleSuccessfulSign` does not throw, it makes one call, of the sign's callback, and the promise
-- of `signPromised` resolves to the signature, in ECDSA with the recovery and in EdDSA without.
pub settle-handle_successful_sign :
    (scheme : Scheme) (sign : Sign) (signature : String) (recovery : Option String) (s : Tss)
    → (handle_successful_sign scheme sign (some signature) recovery s).0 ≡ ok tt
    → (call : Call) × ((handle_successful_sign scheme sign (some signature) recovery s).1.calls
        ≡ s.calls ++ call ∷ [])
      × (call.callback ≡ sign.callback)
      × (settle scheme call
          ≡ ok (record {
            signature = signature;
            signature_recovery = elim scheme [ ecdsa ↦ recovery | eddsa ↦ none ];
          }))
unfolding handle_successful_sign settle
settle-handle_successful_sign ecdsa sign signature recovery s h = (
  record {
    callback = sign.callback;
    status = true;
    message = none;
    signature = some signature;
    signature_recovery = recovery;
  },
  ground arith,
  refl,
  ground arith,
)
settle-handle_successful_sign eddsa sign signature recovery s h = (
  record {
    callback = sign.callback;
    status = true;
    message = none;
    signature = some signature;
    signature_recovery = none;
  },
  ground arith,
  refl,
  ground arith,
)
