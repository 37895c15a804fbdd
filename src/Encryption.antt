-- ===== src/Encryption.antt =====
-- packages/encryption/lib/abstract/EncryptionHandler.ts: the interface of the signing keys. Its
-- two implementations hand every call to third-party libraries, so that a client takes a handler.
use sign_protocols.Prelude.{String, Bool, ◌≡◌, true}
use sign_protocols.Exec.{Result, ok}

pub record EncryptionHandler : Type 0 where
  pub sign : String → String
  -- a malformed signature or key makes the libraries throw
  pub verify : String → String → String → Result Bool
  pub get_crypto : String
  pub get_pk : String

-- What the libraries document: a signature verifies under the signer's own key.
abbrev pub SignsCorrectly : EncryptionHandler → EncryptionHandler → Type 0
SignsCorrectly signer verifier =
    (text : String) → verifier.verify text (signer.sign text) signer.get_pk ≡ ok true
