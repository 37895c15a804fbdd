-- ===== src/Tss/State.antt =====
-- The state of `TssSigner` and the data of packages/tss/lib/types/signer.ts.
-- A caller's callback is a number; its calls are entries of `calls`. The bodies that are posted to
-- the tss service are entries of `posts`.
use sign_protocols.Prelude.{
  ℕ, ℤ, String, Option, none, some, List, [], ◌∷◌, Bool, true, leb, if◌then◌else◌,
}
use sign_protocols.Json.{
  ToJson, Json, Elems, null, num, str, arr, obj, nil, cons, end, field, optional_field,
}
use sign_protocols.Exec.{Exec}
use sign_protocols.Communicator.{Communicator, or_default}
use sign_protocols.Communicator
use sign_protocols.Detection.State.{ActiveGuard, GuardDetection}
use mathlib.Core.Option

pub record Request : Type 0 where
  pub guards : List ActiveGuard
  pub index : ℕ
  pub timestamp : ℕ

-- `signs` may have holes, which are `undefined` and here `none`.
pub record Sign : Type 0 where
  pub msg : String
  pub callback : ℕ
  pub request : Option Request
  pub signs : List (Option String)
  pub added_time : ℕ
  pub posted : Bool
  pub chain_code : String
  pub derivation_path : Option (List ℕ)

pub record PendingSign : Type 0 where
  pub msg : String
  pub guards : List ActiveGuard
  pub index : ℕ
  pub timestamp : ℕ
  pub sender : String

pub record SignApprovePayload : Type 0 where
  pub msg : String
  pub guards : List ActiveGuard
  pub init_guard_index : ℕ

pub record SignResult : Type 0 where
  pub signature : String
  pub signature_recovery : Option String

-- The payloads of the four kinds of message.
pub data SignPayload : Type 0 where
  request : String → List ActiveGuard → SignPayload
  approve : SignApprovePayload → SignPayload
  cached : String → SignResult → SignPayload
  start : String → List (Option String) → List ActiveGuard → SignPayload

abbrev guard_json : ActiveGuard → Json
guard_json g =
    let index = field "index" (num g.index) end in
    if g.key_first
    then obj (field "publicKey" (str g.public_key) (field "peerId" (str g.peer_id) index))
    else obj (field "peerId" (str g.peer_id) (field "publicKey" (str g.public_key) index))

abbrev guards_json : List ActiveGuard → Elems
guards_json [] = nil
guards_json (g ∷ gs) = cons (guard_json g) (guards_json gs)

-- a hole of an array is printed as `null`
abbrev signs_json : List (Option String) → Elems
signs_json [] = nil
signs_json (none ∷ ss) = cons null (signs_json ss)
signs_json (some s ∷ ss) = cons (str s) (signs_json ss)

abbrev payload_json : SignPayload → Json
payload_json (request msg guards) =
    obj (field "msg" (str msg) (field "guards" (arr (guards_json guards)) end))
payload_json (approve p) = obj (
    field "msg" (str p.msg) (
      field "guards" (arr (guards_json p.guards))
        (field "initGuardIndex" (num p.init_guard_index) end)))
payload_json (cached msg result) = obj (
    field "msg" (str msg) (
      field "signature" (str result.signature)
        (optional_field "signatureRecovery" (Option.map str result.signature_recovery) end)))
payload_json (start msg signs guards) = obj (
    field "msg" (str msg)
      (field "signs" (arr (signs_json signs)) (field "guards" (arr (guards_json guards)) end)))

instance abbrev pub sign_payload_json : ToJson SignPayload
sign_payload_json = record { to_json = payload_json }

abbrev pub request_message : String
request_message = "request"

abbrev pub approve_message : String
approve_message = "approve"

abbrev pub cached_message : String
cached_message = "cached"

abbrev pub start_message : String
start_message = "start"

-- `value` is `none` before the first answer of the tss service, where the source has -1.
-- `expiry` is in milliseconds.
pub record Threshold : Type 0 where
  pub value : Option ℕ
  pub expiry : ℕ

-- `n >= threshold.value`
abbrev pub meets : ℕ → Option ℕ → Bool
meets n none = true
meets n (some t) = leb t n

-- One call of a caller's callback.
pub record Call : Type 0 where
  pub callback : ℕ
  pub status : Bool
  pub message : Option String
  pub signature : Option String
  pub signature_recovery : Option String

-- The arguments that the callback given to `detection.register` closes over.
pub record Retry : Type 0 where
  pub msg : String
  pub guards : List ActiveGuard
  pub sender : String
  pub guard_index : ℕ
  pub timestamp : ℕ

pub record Peer : Type 0 where
  pub share_id : Option String
  pub p2p_id : String

-- The body of a post to the `sign` url.
pub record SignData : Type 0 where
  pub peers : List Peer
  pub message : String
  pub crypto : String
  pub operation_timeout : ℤ
  pub call_back_url : String
  pub chain_code : String
  pub derivation_path : Option (List ℕ)

-- `cache_timers` holds the pending `setTimeout`s of the cache, with their times in milliseconds.
pub record Tss : Type 0 where
  pub comm : Communicator SignPayload
  pub open comm use *
  pub detection : GuardDetection Retry
  pub signing_crypto : String
  pub callback_url : String
  pub threshold : Threshold
  pub threshold_ttl : ℕ
  pub turn_duration : ℕ
  pub turn_no_work : ℕ
  pub timeout : ℕ
  pub response_delay : ℕ
  pub last_update_round : ℕ
  pub signs : List Sign
  pub sign_cache : List (String × SignResult)
  pub cache_timers : List (ℕ × String)
  pub pending_signs : List PendingSign
  pub shares : List String
  pub sign_per_round_limit : ℕ
  pub sign_cache_ttl_seconds : ℕ
  pub calls : List Call
  pub posts : List SignData

-- What the tss service answers: to the threshold request, to a posted sign (`none` is success, and
-- a failure carries the error's status code), and to the request for a public key.
pub record TssApi : Type 0 where
  pub threshold : Option ℕ
  pub sign : SignData → Option (Option String)
  pub get_pk : String → List ℕ → String → Option String

abbrev pub Method : Type 0 → Type 0
Method A = Exec Tss A

abbrev pub on_comm : {A : Type 0} → Exec (Communicator SignPayload) A → Method A
on_comm m s = let (r, c) = m s.comm in (r, record s { comm = c })

abbrev pub on_detection : {A : Type 0} → Exec (GuardDetection Retry) A → Method A
on_detection m s = let (r, d) = m s.detection in (r, record s { detection = d })

abbrev pub sign_turn_duration_default : ℕ
sign_turn_duration_default = 60

abbrev pub sign_turn_no_work_default : ℕ
sign_turn_no_work_default = 10

abbrev pub default_timeout_default : ℕ
default_timeout_default = 300

abbrev pub default_threshold_ttl : ℕ
default_threshold_ttl = 60

-- `value ?? other`
abbrev or_nullish : Option ℕ → ℕ → ℕ
or_nullish none d = d
or_nullish (some n) d = n

pub record SignerConfig : Type 0 where
  pub guards_pk : List String
  pub message_valid_duration : Option ℕ
  pub timeout_seconds : Option ℕ
  pub callback_url : String
  pub detection : GuardDetection Retry
  pub turn_duration_seconds : Option ℕ
  pub turn_no_work_seconds : Option ℕ
  pub shares : List String
  pub threshold_ttl : Option ℕ
  pub response_delay : Option ℕ
  pub sign_per_round_limit : Option ℕ
  pub sign_cache_ttl_seconds : Option ℕ

unfoldable pub create : String → SignerConfig → Tss
unfolding Communicator.init
create signing_crypto config = record {
  comm = Communicator.init config.guards_pk config.message_valid_duration;
  detection = config.detection;
  signing_crypto = signing_crypto;
  callback_url = config.callback_url;
  threshold = record { value = none; expiry = 0 };
  threshold_ttl = or_default config.threshold_ttl default_threshold_ttl;
  turn_duration = or_default config.turn_duration_seconds sign_turn_duration_default;
  turn_no_work = or_default config.turn_no_work_seconds sign_turn_no_work_default;
  timeout = or_default config.timeout_seconds default_timeout_default;
  response_delay = or_nullish config.response_delay 5;
  last_update_round = 0;
  signs = [];
  sign_cache = [];
  cache_timers = [];
  pending_signs = [];
  shares = config.shares;
  sign_per_round_limit = or_nullish config.sign_per_round_limit 2;
  sign_cache_ttl_seconds = or_nullish config.sign_cache_ttl_seconds 7200;
  calls = [];
  posts = [];
}
