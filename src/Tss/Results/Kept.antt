-- ===== src/Tss/Results/Kept.antt =====
-- The messages in the queue in `handleSignData` and `handleSignCachedMessage`.
use sign_protocols.Prelude.{
  String, sym, Option, none, some, Bool, true, false, arith, Bool-cases, Option-cases, inl, inr,
}
use mathlib.Core.Path.{subst}
use sign_protocols.Exec.{modifies}
use sign_protocols.Exec.Invariance.{Keeps, Keeps-bind}
use sign_protocols.Tss.State.{Sign, SignResult}
use sign_protocols.Tss.Queue.{get_sign}
use sign_protocols.Tss.Schemes.{Scheme, ecdsa, eddsa, is_truthy, handle_successful_sign}
use sign_protocols.Tss.Approved.{SignerHost}
use sign_protocols.Tss.Results.{
  StatusEnum, success, failed, cache_result, wrapped_handle_successful_sign, report, finish,
  handle_sign_data, get_pk_and_verify_signature, take_verified, take_cached,
  handle_sign_cached_message,
}
use sign_protocols.Prelude.{AllDiffer}
use sign_protocols.Tss.Distinct.{
  messages, IsDistinct, remove_sign-IsDistinct, signs-add_sign_to_cache, Keeps-skip, Keeps-lift,
}

handle_successful_sign-IsDistinct :
    (scheme : Scheme) (sign : Sign) (signature recovery : Option String)
    → Keeps IsDistinct (handle_successful_sign scheme sign signature recovery)
unfolding handle_successful_sign
handle_successful_sign-IsDistinct ecdsa sign signature recovery = record {
  kept = λ s d. elim (Bool-cases (is_truthy signature)) [
    | inr e ↦ ground (arith, d)
    | inl e ↦ elim (Bool-cases (is_truthy recovery)) [
      | inl f ↦ ground (arith, d)
      | inr f ↦ ground (arith, d)
    ]
  ];
}
handle_successful_sign-IsDistinct eddsa sign signature recovery = record {
  kept = λ s d. elim (Bool-cases (is_truthy signature)) [
    | inl e ↦ ground (arith, d)
    | inr e ↦ ground (arith, d)
  ];
}

module _ (host : SignerHost) where
  cache_result-IsDistinct :
      (sign : Sign) (signature recovery : Option String)
      → Keeps IsDistinct (modifies (cache_result host sign signature recovery))
  unfolding cache_result
  cache_result-IsDistinct sign none recovery = record { kept = λ s d. d }
  cache_result-IsDistinct sign (some signature) recovery = record {
    kept = λ s d.
        subst (λ signs. AllDiffer (messages signs))
          (sym (
            signs-add_sign_to_cache host.node.now sign.msg
              (record { signature = signature; signature_recovery = recovery }) s))
          d;
  }

  wrapped-IsDistinct :
      (sign : Sign) (signature recovery : Option String)
      → Keeps IsDistinct (wrapped_handle_successful_sign host sign signature recovery)
  unfolding wrapped_handle_successful_sign
  wrapped-IsDistinct sign signature recovery =
      Keeps-bind (handle_successful_sign-IsDistinct host.scheme sign signature recovery)
        λ _. cache_result-IsDistinct sign signature recovery

  report-IsDistinct :
      (status : StatusEnum) (sign : Sign) (signature recovery error : Option String)
      → Keeps IsDistinct (report host status sign signature recovery error)
  unfolding report
  report-IsDistinct success sign signature recovery error =
      wrapped-IsDistinct sign signature recovery
  report-IsDistinct failed sign signature recovery error = record { kept = λ s d. d }

  pub handle_sign_data-IsDistinct :
      (status : StatusEnum) (msg : String) (signature recovery error : Option String)
      → Keeps IsDistinct (handle_sign_data host status msg signature recovery error)
  unfolding handle_sign_data finish
  handle_sign_data-IsDistinct status msg signature recovery error = record {
    kept = λ s d. elim (Option-cases (get_sign msg true s)) [
      | inl e ↦ ground (arith, d)
      | inr (sign, e) ↦
          let k =
            (Keeps-bind (report-IsDistinct status sign signature recovery error)
                λ _. remove_sign-IsDistinct msg).kept
              s d in
          elim (Bool-cases sign.posted) [ inl p ↦ ground (arith, k) | inr p ↦ ground (arith, d) ]
    ];
  }

  take_verified-IsDistinct :
      (msg : String) (result : SignResult) (sign : Sign) (valid : Bool)
      → Keeps IsDistinct (take_verified host msg result sign valid)
  unfolding take_verified
  take_verified-IsDistinct msg result sign false = Keeps-skip
  take_verified-IsDistinct msg result sign true =
      Keeps-bind (wrapped-IsDistinct sign (some result.signature) result.signature_recovery)
        λ _. remove_sign-IsDistinct msg

  pub handle_sign_cached_message-IsDistinct :
      (msg : String) (result : SignResult)
      → Keeps IsDistinct (handle_sign_cached_message host msg result)
  unfolding handle_sign_cached_message take_cached
  handle_sign_cached_message-IsDistinct msg result = record {
    kept = λ s d. elim (Option-cases (get_sign msg false s)) [
      | inl e ↦ ground (arith, d)
      | inr (sign, e) ↦
          let k =
            (Keeps-bind
                (Keeps-lift (
                  get_pk_and_verify_signature host s.signing_crypto sign.msg result.signature
                    sign.chain_code sign.derivation_path))
                λ valid. take_verified-IsDistinct msg result sign valid).kept
              s d in
          ground (arith, k)
    ];
  }
