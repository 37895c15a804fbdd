-- ===== src/MultiSig/Hints/Published.antt =====
-- From published commitments and proofs to hints and back.
use sign_protocols.Prelude.{String, ◌≡◌, refl, ap, ◌∙◌, some, List, [], ◌∷◌, map, arith, eq_refl}
use sign_protocols.Prelude.Maps.{Entries}
use sign_protocols.Exec.{ok}
use sign_protocols.MultiSig.Data.{
  CommitmentJson, SingleCommitment, SingleProof, PublishedCommitment, PublishedProof,
}
use sign_protocols.MultiSig.Ergo.{ErgoLib}
use sign_protocols.MultiSig.Hints.{
  no_hints, map_values, public_hint, secret_hint, reduced_commitments, reduced_proofs,
  convert_to_hint_bag, published_proof_to_hint_bag, to_reduced_published_commitments,
  hint_bag_to_published_proof,
}

-- JSON is how ergo-lib passes bags on: what it has written itself is read, and written again as it
-- was.
abbrev pub ReadsBack : ErgoLib → Type 0
ReadsBack E =
    (bag bag' : E.Bag) → E.from_json (E.to_json bag) ≡ ok bag' → E.to_json bag' ≡ E.to_json bag

-- the JSON that a published commitment or proof is converted to
abbrev pub commitment_json : PublishedCommitment → String → String → CommitmentJson
commitment_json commitment key kind = record {
  secret_hints = map_values no_hints commitment;
  public_hints = map_values (map (public_hint (some key) kind)) commitment;
}

abbrev pub proof_json : PublishedProof → String → String → CommitmentJson
proof_json proof key kind = record {
  secret_hints = map_values (map (secret_hint (some key) kind)) proof;
  public_hints = map_values no_hints proof;
}

reduced-public_hint :
    (key kind : String) (cs : List SingleCommitment)
    → reduced_commitments key (map (public_hint (some key) kind) cs) ≡ cs
reduced-public_hint key kind [] = refl
reduced-public_hint key kind (c ∷ cs) = ground (arith, reduced-public_hint key kind cs, eq_refl key)

reduced-secret_hint :
    (key kind : String) (ps : List SingleProof)
    → reduced_proofs key (map (secret_hint (some key) kind) ps) ≡ ps
reduced-secret_hint key kind [] = refl
reduced-secret_hint key kind (p ∷ ps) = ground (arith, reduced-secret_hint key kind ps, eq_refl key)

map_values-inverse {ℓ κ} :
    {V : Type ℓ} {W : Type κ} (f : V → W) (g : W → V) (m : Entries V)
    → ((v : V) → g (f v) ≡ v)
    → map_values g (map_values f m) ≡ m
map_values-inverse f g [] h = refl
map_values-inverse f g ((k, v) ∷ m) h = ground (arith, h v, map_values-inverse f g m h)

module _ (E : ErgoLib) where
  -- What a guard publishes of its hints is what the others make hints of again. The condition is
  -- that the converted JSON is in the form that ergo-lib writes (some bag has it as its JSON), and
  -- that ergo-lib writes again what it has written and read. Then the bag made of a published
  -- commitment with a key gives, reduced for that key, the commitment back, and likewise the bag
  -- made of a published proof gives the proof back, whatever the types of the hints and the inputs
  -- that they are for.
  pub published-round_trip :
      (commitment : PublishedCommitment) (proof : PublishedProof) (key kind kind' : String)
      (own own' bag bag' : E.Bag)
      → ReadsBack E
      → E.to_json own ≡ commitment_json commitment key kind
      → E.to_json own' ≡ proof_json proof key kind'
      → convert_to_hint_bag E commitment (some key) kind ≡ ok bag
      → published_proof_to_hint_bag E proof (some key) kind' ≡ ok bag'
      → (to_reduced_published_commitments E bag key ≡ commitment)
        × (hint_bag_to_published_proof E bag' key ≡ proof)
  unfolding convert_to_hint_bag published_proof_to_hint_bag to_reduced_published_commitments
      hint_bag_to_published_proof
  published-round_trip commitment proof key kind kind' own own' bag bag' reads w w' h h' = (
    ap (λ json. map_values (reduced_commitments key) json.public_hints)
          (reads own bag (ap E.from_json w ∙ h) ∙ w)
        ∙ map_values-inverse (map (public_hint (some key) kind)) (reduced_commitments key)
            commitment (reduced-public_hint key kind),
    ap (λ json. map_values (reduced_proofs key) json.secret_hints)
          (reads own' bag' (ap E.from_json w' ∙ h') ∙ w')
        ∙ map_values-inverse (map (secret_hint (some key) kind')) (reduced_proofs key) proof
            (reduced-secret_hint key kind'),
  )
