-- ===== src/Tss/Schemes.antt =====
-- The two signers, packages/tss/lib/tss/EcdsaSigner.ts and EddsaSigner.ts: what each does where
-- `TssSigner` is abstract. The curves' own verification is a parameter.
use sign_protocols.Prelude.{
  ℕ, String, Option, none, some, List, Bool, true, false, ◌&&◌, not, if◌then◌else◌, ◌==◌,
}
use sign_protocols.Exec.{Result, ok, err}
use sign_protocols.Tss.State.{Sign, SignResult, Call, Tss, Method, SignerConfig, create}
use sign_protocols.Tss.Queue.{call_back}

pub data Scheme : Type 0 where
  ecdsa eddsa : Scheme

abbrev pub crypto_of : Scheme → String
crypto_of ecdsa = "ecdsa"
crypto_of eddsa = "eddsa"

-- Neither subclass passes `signCacheTTLSeconds` on.
new_ecdsa_signer : SignerConfig → Tss
unfolding create
new_ecdsa_signer config = create (crypto_of ecdsa) (record config { sign_cache_ttl_seconds = none })

new_eddsa_signer : SignerConfig → Tss
unfolding create
new_eddsa_signer config = create (crypto_of eddsa) (record config { sign_cache_ttl_seconds = none })

unfoldable pub new_signer : Scheme → SignerConfig → Tss
unfolding new_ecdsa_signer new_eddsa_signer
new_signer ecdsa config = new_ecdsa_signer config
new_signer eddsa config = new_eddsa_signer config

-- an optional text that is present and not empty
abbrev pub is_truthy : Option String → Bool
is_truthy none = false
is_truthy (some t) = not (t == "")

handle_ecdsa_sign : Sign → Option String → Option String → Method (Unit {0})
handle_ecdsa_sign sign signature recovery s =
    if is_truthy signature && is_truthy recovery
    then (ok tt, call_back sign.callback true none signature recovery s)
    else (err "signature and signature recovery are required when ECDSA sign is successful", s)

handle_eddsa_sign : Sign → Option String → Method (Unit {0})
handle_eddsa_sign sign signature s =
    if is_truthy signature
    then (ok tt, call_back sign.callback true none signature none s)
    else (err "signature is required when EdDSA sign is successful", s)

unfoldable pub handle_successful_sign :
    Scheme → Sign → Option String → Option String → Method (Unit {0})
unfolding handle_ecdsa_sign handle_eddsa_sign
handle_successful_sign ecdsa sign signature recovery = handle_ecdsa_sign sign signature recovery
handle_successful_sign eddsa sign signature recovery = handle_eddsa_sign sign signature

-- The derivation path that `signPromised` asks for: one in ECDSA and none in EdDSA.
unfoldable pub check_path : Scheme → Option (List ℕ) → Result (Unit {0})
check_path ecdsa none = err "derivationPath is required in ECDSA signing"
check_path ecdsa (some path) = ok tt
check_path eddsa none = ok tt
check_path eddsa (some path) = err "derivationPath is not supported in EdDSA signing"

abbrev resolved : Option String → Option String → Result SignResult
resolved none recovery = err ""
resolved (some signature) recovery =
    ok (record { signature = signature; signature_recovery = recovery })

abbrev rejected : Option String → Result SignResult
rejected none = err "undefined"
rejected (some reason) = err reason

settle_ecdsa : Call → Result SignResult
settle_ecdsa c =
    if c.status && (is_truthy c.signature && is_truthy c.signature_recovery)
    then resolved c.signature c.signature_recovery
    else rejected c.message

settle_eddsa : Call → Result SignResult
settle_eddsa c =
    if c.status && is_truthy c.signature then resolved c.signature none else rejected c.message

-- How a call of the callback settles the promise of `signPromised`.
unfoldable pub settle : Scheme → Call → Result SignResult
unfolding settle_ecdsa settle_eddsa
settle ecdsa c = settle_ecdsa c
settle eddsa c = settle_eddsa c
