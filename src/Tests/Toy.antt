-- ===== src/Tests/Toy.antt =====
-- A library for the multi-signature handler whose hints are their JSON and whose transactions are
-- their ids, and a handler with transactions that wait.
use sign_protocols.Prelude.{ℕ, String, none, some, List, [], ◌∷◌, false, ◌==◌, not}
use sign_protocols.Exec.{ok}
use sign_protocols.Detection.State.{GuardDetection}
use sign_protocols.MultiSig.Data.{CommitmentJson, PublishedCommitment, PublishedProof}
use sign_protocols.MultiSig.Ergo.{ErgoLib}
use sign_protocols.MultiSig.State.{TxQueued, MultiSig, MultiSigHost}
use sign_protocols.Tests.Data.{guard_keys, node_at, fresh_comm}

-- A bag is its JSON, and what a wallet holds does not matter.
abbrev pub toy : ErgoLib
toy = record {
  Reduced = String;
  Box = String;
  Boxes = List String;
  Bag = CommitmentJson;
  Hints = Unit {0};
  Propositions = List String;
  Context = Unit {0};
  Transaction = String;
  SecretKey = String;
  Wallet = List String;
  reduced_id = λ tx. tx;
  reduced_inputs_len = λ tx. 1;
  transaction_id = λ tx. tx;
  transaction_inputs_len = λ tx. 1;
  sigma_parse_bytes = λ bytes. ok bytes;
  sigma_serialize_bytes = λ tx. tx;
  empty_bag = record { secret_hints = []; public_hints = [] };
  add_hints_for_input = λ i hints bag. bag;
  all_hints_for_input = λ i bag. tt;
  from_json = λ json. ok json;
  to_json = λ bag. bag;
  empty_boxes = [];
  add_box = λ box boxes. box ∷ boxes;
  no_propositions = [];
  add_proposition_from_byte = λ key keys. ok (key ∷ keys);
  dlog_from_bytes = λ hex. ok hex;
  address_content = λ key. "A";
  from_secrets = λ keys. keys;
  generate_commitments = λ entropy wallet tx. ok record { secret_hints = []; public_hints = [] };
  sign_multi = λ entropy wallet tx bag. ok tx;
  extract_hints =
      λ tx context boxes others real simulated. ok record { secret_hints = []; public_hints = [] };
  verify_tx_input_proof = λ i context tx boxes others. ok (not (tx == "bad"));
}

abbrev pub host : ℕ → MultiSigHost toy
host now = record { node = node_at now; state_context = ok tt; entropy = 0 }

abbrev pub single : PublishedCommitment
single = ("0", record { a = "a"; position = "0-0" } ∷ []) ∷ []

abbrev pub single_proof : PublishedProof
single_proof = ("0", record { proof = "p"; position = "0-0" } ∷ []) ∷ []

-- asked for by promise 7, with this guard's commitment
abbrev pub queued : String → TxQueued toy
queued tx = record {
  tx = some tx;
  boxes = "box" ∷ [];
  data_boxes = [];
  secret = some record { secret_hints = []; public_hints = [] };
  simulated_bag = none;
  signs = [];
  commitments = ("A", single) ∷ [];
  commitment_signs = [];
  resolve = some 7;
  reject = some 7;
  create_time = 1000;
  required_signer = 2;
  coordinator = some 0;
}

abbrev pub no_guards : GuardDetection (Unit {0})
no_guards = record {
  comm = fresh_comm;
  guards_info = [];
  need_guard_threshold = 0;
  active_timeout = 120;
  heartbeat_timeout = 60;
  drawn = 0;
  fired = [];
}

abbrev pub with_queue : List (String × TxQueued toy) → MultiSig toy
with_queue transactions = record {
  comm = fresh_comm;
  guards_pk = guard_keys;
  detection = no_guards;
  secret_hex = "A";
  tx_sign_timeout = 10;
  transactions = transactions;
  public_key = none;
  prover = none;
  locked = false;
  settled = [];
}

abbrev pub waiting : MultiSig toy
waiting = with_queue (("tx", queued "tx") ∷ [])

abbrev pub no_bag : CommitmentJson
no_bag = record { secret_hints = []; public_hints = [] }
