-- ===== src/Communicator.antt =====
-- packages/communication/lib/Communicator.ts: the base of every protocol. The abstract class is a
-- record, and a subclass is a record with this one as a field. Clock readings are in milliseconds.
pub mod Index
pub mod Handling
pub mod Delivery
use sign_protocols.Prelude.{
  ℕ, zero, suc, ◌+◌, ◌/◌, String, ◌≡◌, refl, Bool, true, false, not, Option, none, some, List, [],
  ◌∷◌, ◌++◌, ltb, if◌then◌else◌, ◌==◌, get_elem?, index_of,
}
use sign_protocols.Json.{ToJson, stringify, decimal, ◌⋯◌}
use sign_protocols.Exec.{
  Result, ok, err, Exec, ◌>>=◌, ◌>>◌, raise, lift, pure, skip, gets, modifies,
}
use sign_protocols.Encryption.{EncryptionHandler}

pub record CommunicationMessage (P : Type 0) : Type 0 where
  pub kind : String
  pub sign : String
  pub timestamp : ℕ
  pub public_key : String
  pub payload : P
  pub index : ℕ

-- One call of `submitMessage`; no peers means a broadcast.
pub record Submission (P : Type 0) : Type 0 where
  pub message : CommunicationMessage P
  pub peers : List String

-- `index` is `none` where the source has -1. `outbox` lists the calls of `submitMessage`.
pub record Communicator (P : Type 0) : Type 0 where
  pub guard_pks : List String
  pub index : Option ℕ
  pub message_valid_duration : ℕ
  pub outbox : List (Submission P)

abbrev pub guard_message_valid_timeout_default : ℕ
guard_message_valid_timeout_default = 60

-- `value ? value : other` on an optional number: zero counts as absent.
abbrev pub or_default : Option ℕ → ℕ → ℕ
or_default none d = d
or_default (some zero) d = d
or_default (some (suc n)) d = suc n

unfoldable pub init : {P : Type 0} → List String → Option ℕ → Communicator P
init guard_pks duration = record {
  guard_pks = guard_pks;
  index = none;
  message_valid_duration = or_default duration guard_message_valid_timeout_default;
  outbox = [];
}

-- the clock in seconds
unfoldable pub get_date : ℕ → ℕ
get_date now = now / 1000

unfoldable pub generate_payload_to_sign : {P : Type 0} ⦃j : ToJson P⦄ → P → ℕ → String → String
generate_payload_to_sign payload timestamp public_key =
    stringify payload ⋯ decimal timestamp ⋯ public_key

unfoldable pub change_pks : {P : Type 0} → List String → Communicator P → Communicator P
change_pks new_pks c = record c { guard_pks = new_pks }

module _ {P : Type 0} ⦃j : ToJson P⦄ (enc : EncryptionHandler) where
  -- the lookup of `getIndex` when nothing is cached
  find_index : Option ℕ → Exec (Communicator P) ℕ
  find_index none c = raise "Public key not found among the listed guardPks" c
  find_index (some i) c = (ok i, record c { index = some i })

  cached_index : Option ℕ → Exec (Communicator P) ℕ
  unfolding find_index
  cached_index (some i) c = pure i c
  cached_index none c = find_index (index_of enc.get_pk c.guard_pks) c

  unfoldable pub get_index : Exec (Communicator P) ℕ
  unfolding cached_index
  get_index c = cached_index c.index c

  unfoldable pub sign_payload : P → ℕ → String
  sign_payload payload timestamp = enc.sign (generate_payload_to_sign payload timestamp enc.get_pk)

  -- the message that `sendMessage` builds when its index is known
  unfoldable pub signed_message : String → P → ℕ → ℕ → CommunicationMessage P
  unfolding sign_payload
  signed_message kind payload timestamp index = record {
    kind = kind;
    sign = sign_payload payload timestamp;
    timestamp = timestamp;
    public_key = enc.get_pk;
    payload = payload;
    index = index;
  }

  unfoldable pub send_message :
      ℕ → String → P → List String → Option ℕ → Exec (Communicator P) (Unit {0})
  unfolding get_index get_date
  send_message now kind payload peers timestamp = do
    index ← get_index
    modifies λ c. record c {
      outbox =
          c.outbox
          ++ record {
            message = signed_message kind payload (or_default timestamp (get_date now)) index;
            peers = peers;
          }
            ∷ [];
    }

-- `guardPks[index] === publicKey`
abbrev pub is_key_at : List String → ℕ → String → Bool
is_key_at pks i pk = elim (get_elem? pks i) [ none ↦ false | some k ↦ k == pk ]

-- `getDate() - messageValidDuration > timestamp`
abbrev pub is_timed_out : ℕ → ℕ → ℕ → Bool
is_timed_out date duration timestamp = ltb (timestamp + duration) date

-- A subclass's state `S` holds the base, and `process` is its `processMessage`.
module _ {P S : Type 0} ⦃j : ToJson P⦄ (enc : EncryptionHandler) (base : S → Communicator P)
    (process : String → P → String → ℕ → String → ℕ → Exec S (Unit {0})) where
  deliver : CommunicationMessage P → String → Bool → Exec S (Unit {0})
  deliver msg peer_id false = skip
  deliver msg peer_id true = process msg.kind msg.payload msg.sign msg.index peer_id msg.timestamp

  verify_and_deliver : CommunicationMessage P → String → Exec S (Unit {0})
  unfolding deliver
  verify_and_deliver msg peer_id = do
    valid ← lift (
        enc.verify (generate_payload_to_sign msg.payload msg.timestamp msg.public_key) msg.sign
          msg.public_key)
    deliver msg peer_id valid

  -- `none` stands for a text that `JSON.parse` refuses.
  unfoldable pub handle_message : ℕ → Option (CommunicationMessage P) → String → Exec S (Unit {0})
  unfolding verify_and_deliver get_date
  handle_message now none peer_id s = raise "SyntaxError" s
  handle_message now (some msg) peer_id s =
      let c = base s in
      if is_timed_out (get_date now) c.message_valid_duration msg.timestamp
      then skip s
      else if not (is_key_at c.guard_pks msg.index msg.public_key)
      then skip s
      else verify_and_deliver msg peer_id s
