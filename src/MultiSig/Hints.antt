-- ===== src/MultiSig/Hints.antt =====
-- packages/ergo-multi-sig/lib/MultiSigUtils.ts: what is published of the hints, the hints made of
-- what was published, and the check of a signed transaction's inputs.
pub mod Published
pub mod Verified
use Prim.Native.String
use sign_protocols.Prelude.{
  ℕ, zero, suc, String, Option, none, some, List, [], ◌∷◌, Bool, true, false, not, ◌&&◌, ◌||◌, map,
  keep_if, get_elem?, is_empty, eqb, length, if◌then◌else◌, ◌==◌,
}
use sign_protocols.Prelude.Maps.{Entries, lookup}
use sign_protocols.Json.{◌⋯◌, decimal}
use sign_protocols.Exec.{Result, ok, err}
use sign_protocols.Detection.Active.{sort}
use sign_protocols.MultiSig.Data.{
  Pubkey, SingleCommitmentJson, SingleProofJson, CommitmentJson, SingleCommitment, SingleProof,
  PublishedCommitment, PublishedProof, challenge_len,
}
use sign_protocols.MultiSig.Ergo.{ErgoLib}

-- The next part of a function that may throw.
abbrev pub and_then {ℓ κ} : {A : Type ℓ} {B : Type κ} → Result A → (A → Result B) → Result B
and_then (ok a) f = f a
and_then (err e) f = err e

-- `text.slice(0, n)`
abbrev pub slice : ℕ → String → String
slice zero s = ""
slice (suc n) String.[] = ""
slice (suc n) (String.◌∷◌ c s) = String.◌∷◌ c (slice n s)

-- `Object.keys(m).forEach((key) => { result[key] = f(m[key]) })`
abbrev pub map_values {ℓ κ} : {V : Type ℓ} {W : Type κ} → (V → W) → Entries V → Entries W
map_values f [] = []
map_values f ((k, v) ∷ m) = (k, f v) ∷ map_values f m

abbrev no_hints {ℓ κ} : {V : Type ℓ} {W : Type κ} → V → List W
no_hints v = []

abbrev pub dlog_key : Option String → Pubkey
dlog_key pub_key = record { op = "205"; h = pub_key }

abbrev public_hint : Option String → String → SingleCommitment → SingleCommitmentJson
public_hint pub_key kind c = record {
  hint = kind;
  pubkey = dlog_key pub_key;
  kind = "dlog";
  a = c.a;
  secret = none;
  position = c.position;
}

abbrev secret_hint : Option String → String → SingleProof → SingleProofJson
secret_hint pub_key kind p = record {
  hint = kind;
  pubkey = dlog_key pub_key;
  challenge = slice challenge_len p.proof;
  proof = p.proof;
  position = p.position;
}

-- `pubkey.h === pub`
abbrev has_key : String → Pubkey → Bool
has_key pub_key key = elim key.h [ none ↦ false | some h ↦ h == pub_key ]

-- `!item.secret`
abbrev is_open : SingleCommitmentJson → Bool
is_open hint = elim hint.secret [ none ↦ true | some secret ↦ secret == "" ]

abbrev reduced_commitments : String → List SingleCommitmentJson → List SingleCommitment
reduced_commitments pub_key hints =
    map (λ (hint : SingleCommitmentJson). record { a = hint.a; position = hint.position })
      (keep_if (λ (hint : SingleCommitmentJson). has_key pub_key hint.pubkey)
        (keep_if is_open hints))

abbrev reduced_proofs : String → List SingleProofJson → List SingleProof
reduced_proofs pub_key hints =
    map (λ (hint : SingleProofJson). record { proof = hint.proof; position = hint.position })
      (keep_if (λ (hint : SingleProofJson). has_key pub_key hint.pubkey) hints)

module _ (E : ErgoLib) where
  add_hints_from : ℕ → ℕ → E.Bag → E.Bag → E.Bag
  add_hints_from i zero current new = current
  add_hints_from i (suc n) current new =
      add_hints_from (suc i) n (E.add_hints_for_input i (E.all_hints_for_input i new) current) new

  unfoldable pub add_hints : E.Bag → E.Bag → ℕ → E.Bag
  unfolding add_hints_from
  add_hints current new input_len = add_hints_from 0 input_len current new

  unfoldable pub convert_to_hint_bag : PublishedCommitment → Option String → String → Result E.Bag
  convert_to_hint_bag commitments pub_key kind = E.from_json record {
    secret_hints = map_values no_hints commitments;
    public_hints = map_values (map (public_hint pub_key kind)) commitments;
  }

  unfoldable pub published_proof_to_hint_bag :
      PublishedProof → Option String → String → Result E.Bag
  published_proof_to_hint_bag proof pub_key kind = E.from_json record {
    secret_hints = map_values (map (secret_hint pub_key kind)) proof;
    public_hints = map_values no_hints proof;
  }

  -- The loop of the next two: each published object is converted with the key at its position.
  collect_hints :
      {A : Type 0}
      → (A → Option String → Result E.Bag)
      → ℕ
      → List String
      → ℕ
      → List A
      → E.Bag
      → Result E.Bag
  collect_hints convert input_len pub_keys i [] hints = ok hints
  collect_hints convert input_len pub_keys i (x ∷ xs) hints =
      and_then (convert x (get_elem? pub_keys i))
        λ bag. collect_hints convert input_len pub_keys (suc i) xs (add_hints hints bag input_len)

  unfoldable pub published_proofs_to_hint_bag :
      List PublishedProof → List String → ℕ → String → Result E.Bag
  unfolding collect_hints
  published_proofs_to_hint_bag proofs pub_keys input_len kind =
      collect_hints (λ proof pub_key. published_proof_to_hint_bag proof pub_key kind) input_len
        pub_keys 0 proofs E.empty_bag

  unfoldable pub published_commitments_to_hint_bag :
      List PublishedCommitment → List String → ℕ → String → Result E.Bag
  unfolding collect_hints
  published_commitments_to_hint_bag commitments pub_keys input_len kind =
      collect_hints (λ commitment pub_key. convert_to_hint_bag commitment pub_key kind) input_len
        pub_keys 0 commitments E.empty_bag

  unfoldable pub to_reduced_published_commitments : E.Bag → String → PublishedCommitment
  to_reduced_published_commitments hint_bag pub_key =
      map_values (reduced_commitments pub_key) (E.to_json hint_bag).public_hints

  unfoldable pub to_reduced_published_commitments_array :
      E.Bag → List String → List PublishedCommitment
  to_reduced_published_commitments_array hint_bag pub_keys =
      map (to_reduced_published_commitments hint_bag) pub_keys

  unfoldable pub hint_bag_to_published_proof : E.Bag → String → PublishedProof
  hint_bag_to_published_proof hint_bag pub_key =
      map_values (reduced_proofs pub_key) (E.to_json hint_bag).secret_hints

  unfoldable pub to_reduced_published_proofs_array : E.Bag → List String → List PublishedProof
  to_reduced_published_proofs_array hint_bag pub_keys =
      map (hint_bag_to_published_proof hint_bag) pub_keys

  unfoldable pub public_key_to_proposition : List String → E.Propositions → Result E.Propositions
  public_key_to_proposition [] res = ok res
  public_key_to_proposition (key ∷ keys) res =
      and_then (E.add_proposition_from_byte ("cd" ⋯ key) res)
        λ res'. public_key_to_proposition keys res'

  -- `boxes.forEach((item) => collection.add(item))`
  unfoldable pub add_boxes : List E.Box → E.Boxes → E.Boxes
  add_boxes [] boxes = boxes
  add_boxes (box ∷ rest) boxes = add_boxes rest (E.add_box box boxes)

  unfoldable pub extract_hints :
      Result E.Context
      → E.Transaction
      → List E.Box
      → List E.Box
      → List String
      → List String
      → Result E.Bag
  unfolding public_key_to_proposition add_boxes
  extract_hints state_context tx boxes data_boxes signed simulated =
      and_then (public_key_to_proposition simulated E.no_propositions) λ simulated_propositions.
        and_then (public_key_to_proposition signed E.no_propositions) λ real_propositions.
          and_then state_context λ context.
            E.extract_hints tx context (add_boxes boxes E.empty_boxes)
              (add_boxes data_boxes E.empty_boxes) real_propositions simulated_propositions

  -- the loop of `verifyInput`, over the next `n` inputs
  verify_from : E.Context → E.Transaction → E.Boxes → ℕ → ℕ → Result Bool
  verify_from context tx boxes i zero = ok true
  verify_from context tx boxes i (suc n) =
      let rest = verify_from context tx boxes (suc i) n in
      and_then (E.verify_tx_input_proof i context tx boxes E.empty_boxes)
        λ valid. if valid then rest else ok false

  unfoldable pub verify_input : Result E.Context → E.Transaction → List E.Box → Result Bool
  unfolding verify_from add_boxes
  verify_input state_context tx boxes = and_then state_context λ context.
      verify_from context tx (add_boxes boxes E.empty_boxes) 0 (E.transaction_inputs_len tx)

  unfoldable pub get_empty_prover : E.Wallet
  get_empty_prover = E.from_secrets []
