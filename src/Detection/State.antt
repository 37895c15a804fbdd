-- ===== src/Detection/State.antt =====
-- The state of `GuardDetection` and the data of packages/detection/lib/interfaces/types.ts.
-- Callbacks are values of a type `C`; a call of one is an entry of `fired`.
use sign_protocols.Prelude.{ℕ, suc, String, Option, List, [], ◌∷◌, ◌++◌, Bool}
use sign_protocols.Json.{ToJson, str, obj, end, optional_field}
use sign_protocols.Exec.{Exec}
use sign_protocols.Encryption.{EncryptionHandler}
use sign_protocols.Communicator
use sign_protocols.Communicator.{Communicator, or_default}
use mathlib.Core.Option

-- A random text and the time it was drawn, in milliseconds.
pub record Nonce : Type 0 where
  pub bytes : String
  pub timestamp : ℕ

pub record GuardInfo (C : Type 0) : Type 0 where
  pub peer_id : String
  pub nonce : List Nonce
  pub last_update : ℕ
  pub public_key : String
  pub callback : List C
  pub index : ℕ

-- `key_first` says that the object was made with its key before its peer id, the order in which
-- JSON.stringify prints it; a parsed object keeps it.
pub record ActiveGuard : Type 0 where
  pub key_first : Bool
  pub peer_id : String
  pub public_key : String
  pub index : ℕ

-- The payloads of the three kinds of message, whose fields the receiver cannot rely on.
pub record DetectionPayload : Type 0 where
  pub nonce : Option String
  pub received_nonce : Option String

instance abbrev pub detection_payload_json : ToJson DetectionPayload
detection_payload_json = record {
  to_json = λ p. obj (
      optional_field "nonce" (Option.map str p.nonce)
        (optional_field "receivedNonce" (Option.map str p.received_nonce) end));
}

abbrev pub approve_message : String
approve_message = "approval"

abbrev pub heartbeat_message : String
heartbeat_message = "heartbeat"

abbrev pub register_message : String
register_message = "register"

abbrev pub guard_active_timeout_default : ℕ
guard_active_timeout_default = 120

abbrev pub guard_heartbeat_timeout_default : ℕ
guard_heartbeat_timeout_default = 60

pub record Fired (C : Type 0) : Type 0 where
  pub callback : C
  pub status : Bool
  pub reason : Option String

-- `drawn` counts the random texts that were drawn.
pub record GuardDetection (C : Type 0) : Type 0 where
  pub comm : Communicator DetectionPayload
  pub open comm use *
  pub guards_info : List (GuardInfo C)
  pub need_guard_threshold : ℕ
  pub active_timeout : ℕ
  pub heartbeat_timeout : ℕ
  pub drawn : ℕ
  pub fired : List (Fired C)

-- What the code takes from outside: the clock in milliseconds, the keys, this node's peer id,
-- random texts, and the collation by which the host's `localeCompare` orders.
pub record Host : Type 0 where
  pub now : ℕ
  pub enc : EncryptionHandler
  pub peer_id : String
  pub random_bytes : ℕ → String
  pub locale_le : String → String → Bool

abbrev pub Method : Type 0 → Type 0 → Type 0
Method C A = Exec (GuardDetection C) A

-- A method of the base class.
abbrev pub on_comm : {C A : Type 0} → Exec (Communicator DetectionPayload) A → Method C A
on_comm m s = let (r, c) = m s.comm in (r, record s { comm = c })

abbrev fresh_info : {C : Type 0} → String → ℕ → GuardInfo C
fresh_info pk i = record {
  peer_id = "";
  nonce = [];
  last_update = 0;
  public_key = pk;
  callback = [];
  index = i;
}

-- `guardsPublicKey.map((item, index) => …)` from an index on
abbrev pub fresh_infos : {C : Type 0} → ℕ → List String → List (GuardInfo C)
fresh_infos i [] = []
fresh_infos i (pk ∷ pks) = fresh_info pk i ∷ fresh_infos (suc i) pks

unfoldable pub create :
    {C : Type 0} → List String → Option ℕ → Option ℕ → Option ℕ → GuardDetection C
unfolding Communicator.init
create pks active_timeout heartbeat_timeout valid_duration = record {
  comm = Communicator.init pks valid_duration;
  guards_info = fresh_infos 0 pks;
  need_guard_threshold = 0;
  active_timeout = or_default active_timeout guard_active_timeout_default;
  heartbeat_timeout = or_default heartbeat_timeout guard_heartbeat_timeout_default;
  drawn = 0;
  fired = [];
}

unfoldable pub set_need_guard_threshold : {C : Type 0} → ℕ → GuardDetection C → GuardDetection C
set_need_guard_threshold n s = record s { need_guard_threshold = n }

abbrev pub fire : {C : Type 0} → C → Bool → Option String → GuardDetection C → GuardDetection C
fire callback status reason s = record s {
  fired = s.fired ++ record { callback = callback; status = status; reason = reason } ∷ [];
}
