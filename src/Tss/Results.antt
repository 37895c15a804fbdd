-- ===== src/Tss/Results.antt =====
-- The end of a signature: the tss service's answer in `handleSignData`, or another guard's cached
-- signature in `handleSignCachedMessage`.
pub mod Kept
use sign_protocols.Prelude.{
  ℕ, String, Option, none, some, List, [], Bool, true, false, not, if◌then◌else◌,
}
use sign_protocols.Exec.{Result, ok, ◌>>=◌, ◌>>◌, skip, modifies, lift, raise}
use sign_protocols.Tss.State.{Sign, SignResult, Tss, Method}
use sign_protocols.Tss.Queue.{get_sign, remove_sign, add_sign_to_cache, call_back}
use sign_protocols.Tss.Schemes.{handle_successful_sign}
use sign_protocols.Tss.Approved.{SignerHost}

pub data StatusEnum : Type 0 where
  success failed : StatusEnum

abbrev path_or_empty : Option (List ℕ) → List ℕ
path_or_empty none = []
path_or_empty (some path) = path

module _ (host : SignerHost) where
  cache_result : Sign → Option String → Option String → Tss → Tss
  cache_result sign none recovery s = s
  cache_result sign (some signature) recovery s =
      add_sign_to_cache host.node.now sign.msg
        (record { signature = signature; signature_recovery = recovery }) s

  unfoldable pub wrapped_handle_successful_sign :
      Sign → Option String → Option String → Method (Unit {0})
  unfolding cache_result
  wrapped_handle_successful_sign sign signature recovery = do
    handle_successful_sign host.scheme sign signature recovery
    modifies (cache_result sign signature recovery)

  report : StatusEnum → Sign → Option String → Option String → Option String → Method (Unit {0})
  report success sign signature recovery error =
      wrapped_handle_successful_sign sign signature recovery
  report failed sign signature recovery error =
      modifies (call_back sign.callback false error none none)

  finish :
      StatusEnum
      → String
      → Option String
      → Option String
      → Option String
      → Option Sign
      → Method (Unit {0})
  unfolding report
  finish status message signature recovery error none = raise "Invalid message"
  finish status message signature recovery error (some sign) =
      if not sign.posted
      then raise "Invalid message"
      else do report status sign signature recovery error; modifies (remove_sign message)

  unfoldable pub handle_sign_data :
      StatusEnum → String → Option String → Option String → Option String → Method (Unit {0})
  unfolding finish
  handle_sign_data status message signature recovery error s =
      finish status message signature recovery error (get_sign message true s) s

  verify_with : String → String → Option String → Result Bool
  verify_with message signature none = ok false
  verify_with message signature (some public_key) =
      host.curve_verify host.scheme message signature public_key

  unfoldable pub get_pk_and_verify_signature :
      String → String → String → String → Option (List ℕ) → Result Bool
  unfolding verify_with
  get_pk_and_verify_signature crypto message signature chain_code derivation_path =
      verify_with message signature
        (host.api.get_pk chain_code (path_or_empty derivation_path) crypto)

  take_verified : String → SignResult → Sign → Bool → Method (Unit {0})
  take_verified msg result sign false = skip
  take_verified msg result sign true = do
    wrapped_handle_successful_sign sign (some result.signature) result.signature_recovery
    modifies (remove_sign msg)

  take_cached : String → SignResult → Option Sign → Method (Unit {0})
  unfolding take_verified get_pk_and_verify_signature
  take_cached msg result none s = skip s
  take_cached msg result (some sign) s =
      (do
        valid ← lift (
            get_pk_and_verify_signature s.signing_crypto sign.msg result.signature sign.chain_code
              sign.derivation_path)
        take_verified msg result sign valid)
        s

  unfoldable pub handle_sign_cached_message : String → SignResult → Method (Unit {0})
  unfolding take_cached
  handle_sign_cached_message msg result s = take_cached msg result (get_sign msg false s) s
