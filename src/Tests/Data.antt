-- ===== src/Tests/Data.antt =====
-- Concrete keys, nodes and states on which the theorems are tried.
use sign_protocols.Prelude.{
  true, false, ℕ, String, Option, none, some, List, [], ◌∷◌, Bool, not, ◌||◌, ◌==◌,
}
use sign_protocols.Exec.{ok, Exec}
use sign_protocols.Encryption.{EncryptionHandler}
use sign_protocols.Communicator.{Communicator}
use sign_protocols.Detection.State.{
  Nonce, GuardInfo, ActiveGuard, DetectionPayload, GuardDetection, Host,
}
use sign_protocols.Tss.State.{Sign, Request, Tss, TssApi, Retry, SignResult}
use sign_protocols.Tss.Schemes.{ecdsa}
use sign_protocols.Tss.Approved.{SignerHost}

-- A signature is the signer's key.
abbrev pub keys_of : String → EncryptionHandler
keys_of key = record {
  sign = λ text. key;
  verify = λ text sign pk. ok (sign == pk);
  get_crypto = "ed25519";
  get_pk = key;
}

abbrev pub guard_keys : List String
guard_keys = "A" ∷ "B" ∷ []

abbrev pub fresh_comm : {P : Type 0} → Communicator P
fresh_comm = record {
  guard_pks = guard_keys;
  index = none;
  message_valid_duration = 60;
  outbox = [];
}

-- what the tests deliver to: the last kind of message that came
abbrev pub Inbox : Type 0
Inbox = Communicator DetectionPayload × List String

abbrev pub take_kind : String → DetectionPayload → String → ℕ → String → ℕ → Exec Inbox (Unit {0})
take_kind kind payload sign i peer_id time (c, kinds) = (ok tt, (c, kind ∷ kinds))

abbrev pub empty_inbox : Inbox
empty_inbox = (fresh_comm, [])

abbrev pub payload : DetectionPayload
payload = record { nonce = none; received_nonce = some "r" }

abbrev pub node_at : ℕ → Host
node_at now = record {
  now = now;
  enc = keys_of "A";
  peer_id = "peer-a";
  random_bytes = λ n. "r";
  locale_le = λ a b. a == "A" || not (b == "A");
}

abbrev pub nonce_at : String → ℕ → Nonce
nonce_at text time = record { bytes = text; timestamp = time }

abbrev pub info_a : GuardInfo ℕ
info_a = record {
  peer_id = "";
  nonce = [];
  last_update = 0;
  public_key = "A";
  callback = [];
  index = 0;
}

abbrev pub info_b : GuardInfo ℕ
info_b = record {
  peer_id = "peer-b";
  nonce = nonce_at "r" 65000 ∷ [];
  last_update = 60;
  public_key = "B";
  callback = 7 ∷ [];
  index = 1;
}

abbrev pub detection_of : {C : Type 0} → List (GuardInfo C) → GuardDetection C
detection_of infos = record {
  comm = fresh_comm;
  guards_info = infos;
  need_guard_threshold = 2;
  active_timeout = 120;
  heartbeat_timeout = 60;
  drawn = 3;
  fired = [];
}

abbrev pub detection : GuardDetection ℕ
detection = detection_of (info_a ∷ info_b ∷ [])

abbrev pub api : TssApi
api = record {
  threshold = some 1;
  sign = λ body. none;
  get_pk = λ chain_code path crypto. some "tss-key";
}

abbrev pub host_at : ℕ → SignerHost
host_at now = record {
  node = node_at now;
  enc = keys_of "A";
  api = api;
  scheme = ecdsa;
  curve_verify = λ scheme text signature pk. ok (signature == "good");
}

abbrev pub guard_a : ActiveGuard
guard_a = record { key_first = true; peer_id = "peer-a"; public_key = "A"; index = 0 }

abbrev pub guard_b : ActiveGuard
guard_b = record { key_first = false; peer_id = "peer-b"; public_key = "B"; index = 1 }

abbrev pub both : List ActiveGuard
both = guard_a ∷ guard_b ∷ []

abbrev pub sign_of : Option Request → Bool → Sign
sign_of asked posted = record {
  msg = "m";
  callback = 5;
  request = asked;
  signs = some "A" ∷ some "" ∷ [];
  added_time = 10;
  posted = posted;
  chain_code = "cc";
  derivation_path = some (0 ∷ []);
}

abbrev pub signer_of : List Sign → Tss
signer_of signs = record {
  comm = fresh_comm;
  detection = detection_of [];
  signing_crypto = "ecdsa";
  callback_url = "http://guard";
  threshold = record { value = some 2; expiry = 0 };
  threshold_ttl = 60;
  turn_duration = 60;
  turn_no_work = 10;
  timeout = 300;
  response_delay = 5;
  last_update_round = 0;
  signs = signs;
  sign_cache = [];
  cache_timers = [];
  pending_signs = [];
  shares = "sa" ∷ "sb" ∷ [];
  sign_per_round_limit = 2;
  sign_cache_ttl_seconds = 7200;
  calls = [];
  posts = [];
}

abbrev pub asked : Request
asked = record { guards = both; index = 0; timestamp = 11 }

abbrev pub retry : Retry
retry = record { msg = "m"; guards = both; sender = "peer-b"; guard_index = 1; timestamp = 70 }

abbrev pub result : SignResult
result = record { signature = "good"; signature_recovery = some "00" }
