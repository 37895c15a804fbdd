-- ===== src/Communicator/Handling.antt =====
-- What `handleMessage` lets through.
use sign_protocols.Prelude.{
  ℕ, ◌+◌, ◌≤◌, String, ◌≡◌, ◌⊎◌, Bool, true, Option, none, some, sym, ap, arith, get_elem?, ltb→lt,
  ltb→le, eq_iff, Bool-cases, inl, inr,
}
use mathlib.Core.Path.{subst}
use sign_protocols.Exec.Invariance.{Keeps}
use sign_protocols.Json.{ToJson}
use sign_protocols.Exec.{Result, Result-cases, ok, Exec}
use sign_protocols.Encryption.{EncryptionHandler}
use sign_protocols.Communicator.{
  CommunicationMessage, Communicator, get_date, generate_payload_to_sign, handle_message,
  is_timed_out, is_key_at,
}
use sign_protocols.Communicator.Index.{is_key_at→get_elem?}

module _ {P S : Type 0} ⦃j : ToJson P⦄ (enc : EncryptionHandler) (base : S → Communicator P)
    (process : String → P → String → ℕ → String → ℕ → Exec S (Unit {0})) where
  -- What a receiver in state `s` asks of a message: it is not too old, it names the key that
  -- stands at its index, and its signature is good.
  pub record Accepts (now : ℕ) (msg : CommunicationMessage P) (s : S) : Type 0 where
    pub fresh : get_date now ≤ msg.timestamp + (base s).message_valid_duration
    pub keyed : get_elem? (base s).guard_pks msg.index ≡ some msg.public_key
    pub signed :
        enc.verify
          (generate_payload_to_sign msg.payload msg.timestamp msg.public_key)
          msg.sign
          msg.public_key
        ≡ ok true

  -- A message that is accepted is given to `processMessage`, with the sender's index and key that
  -- were checked, and nothing else happens.
  pub handle_message-delivers :
      (now : ℕ) (msg : CommunicationMessage P) (peer_id : String) (s : S)
      → Accepts now msg s
      → handle_message enc base process now (some msg) peer_id s
        ≡ process msg.kind msg.payload msg.sign msg.index peer_id msg.timestamp s
  unfolding handle_message
  handle_message-delivers now msg peer_id s a =
      ground (arith, a.fresh, a.keyed, a.signed, eq_iff msg.public_key msg.public_key)

  -- `handleMessage` delivers exactly what a receiver accepts. Either the message is accepted, and
  -- then it is given to `processMessage` with the index, key and time that were checked; or it is
  -- not accepted, and then the state stays as it was.
  pub handle_message-guards :
      (now : ℕ) (msg : CommunicationMessage P) (peer_id : String) (s : S)
      → (Accepts now msg s
          × (handle_message enc base process now (some msg) peer_id s
              ≡ process msg.kind msg.payload msg.sign msg.index peer_id msg.timestamp s))
        ⊎ ((¬ Accepts now msg s)
            × ((handle_message enc base process now (some msg) peer_id s).1 ≡ s))
  unfolding handle_message
  handle_message-guards now msg peer_id s = elim (Bool-cases late) [
    | inl e ↦ inr (λ a. absurd (omega (arith, a.fresh, ltb→lt _ _ e)), ground arith)
    | inr f ↦ elim (Bool-cases (is_key_at (base s).guard_pks msg.index msg.public_key)) [
      | inr e ↦
          inr (λ a. ground (arith, a.keyed, eq_iff msg.public_key msg.public_key), ground arith)
      | inl k ↦ elim (Result-cases verdict) [
        | inl v ↦
            let a : Accepts now msg s = record {
              fresh = ltb→le _ _ f;
              keyed = is_key_at→get_elem? _ msg.index msg.public_key k;
              signed = v;
            } in
            inl (a, handle_message-delivers now msg peer_id s a)
        | inr (inl v) ↦ inr (λ a. ground (arith, a.signed), ground arith)
        | inr (inr (e, v)) ↦ inr (λ a. ground (arith, a.signed), ground arith)
      ]
    ]
  ]
    where
      late : Bool
      late = is_timed_out (get_date now) (base s).message_valid_duration msg.timestamp

      verdict : Result Bool
      verdict =
          enc.verify (generate_payload_to_sign msg.payload msg.timestamp msg.public_key) msg.sign
            msg.public_key

  -- What holds as things are and after every delivery, holds after `handleMessage`.
  pub handle_message-ends :
      (J : S → Type 0) (now : ℕ) (msg : Option (CommunicationMessage P)) (peer_id : String) (s : S)
      → ((kind : String) (payload : P) (sign : String) (i : ℕ) (time : ℕ)
          → J (process kind payload sign i peer_id time s).1)
      → J s
      → J (handle_message enc base process now msg peer_id s).1
  handle_message-ends J now none peer_id s k i = unfold handle_message in i
  handle_message-ends J now (some msg) peer_id s k i =
      elim (handle_message-guards now msg peer_id s) [
        | inl (a, e) ↦
            subst J (sym (ap (λ r. r.1) e))
              (k msg.kind msg.payload msg.sign msg.index msg.timestamp)
        | inr (n, e) ↦ subst J (sym e) i
      ]

  -- What every delivery keeps true, `handleMessage` keeps true.
  pub handle_message-Keeps :
      (I : S → Type 0) (now : ℕ) (msg : Option (CommunicationMessage P)) (peer_id : String)
      → ((kind : String) (payload : P) (sign : String) (i : ℕ) (time : ℕ)
          → Keeps I (process kind payload sign i peer_id time))
      → Keeps I (handle_message enc base process now msg peer_id)
  handle_message-Keeps I now msg peer_id k = record {
    kept = λ s i.
        handle_message-ends I now msg peer_id s
          (λ kind payload sign j time. (k kind payload sign j time).kept s i) i;
  }
