-- ===== src/MultiSig/Compare.antt =====
-- packages/ergo-multi-sig/lib/MultiSigUtils.ts: whether two published commitments differ.
use sign_protocols.Prelude.{
  ℕ, zero, suc, String, Option, none, some, List, [], ◌∷◌, Bool, true, false, not, ◌&&◌, ◌||◌,
  get_elem?, eqb, length, if◌then◌else◌, ◌==◌,
}
use sign_protocols.Prelude.Maps.{lookup}
use sign_protocols.Json.{decimal}
use sign_protocols.Exec.{Result, ok, err}
use sign_protocols.Detection.Active.{sort}
use sign_protocols.MultiSig.Data.{SingleCommitment, PublishedCommitment}
use sign_protocols.MultiSig.Hints.{and_then}

-- The loop of the comparison: `none` is an index out of range, where the source throws. An empty
-- text on the second side counts as nothing to compare.
abbrev agree_at : SingleCommitment → Option SingleCommitment → Result Bool
agree_at c none = err "Cannot read properties of undefined"
agree_at c (some d) = ok (d.a == "" || c.a == d.a)

all_agree : ℕ → List SingleCommitment → List SingleCommitment → Result Bool
all_agree i [] ds = ok true
all_agree i (c ∷ cs) ds =
    and_then (agree_at c (get_elem? ds i))
      λ here. and_then (all_agree (suc i) cs ds) λ rest. ok (here && rest)

abbrev by_position : (String → String → Bool) → SingleCommitment → SingleCommitment → Bool
by_position locale_le c d = locale_le c.position d.position

-- `sort` also leaves both arrays sorted.
unfoldable pub compare_single_input_commitments_are_equals :
    (String → String → Bool) → List SingleCommitment → List SingleCommitment → Result Bool
unfolding all_agree
compare_single_input_commitments_are_equals locale_le item1 item2 =
    all_agree 0 (sort (by_position locale_le) item1) (sort (by_position locale_le) item2)

-- one round of the loop: whether the commitments of an input differ
abbrev differ_at :
    (String → String → Bool)
    → Option (List SingleCommitment)
    → Option (List SingleCommitment)
    → Result Bool
differ_at locale_le none cs = ok false
differ_at locale_le (some cs) none = ok false
differ_at locale_le (some []) (some ds) = ok false
differ_at locale_le (some (c ∷ cs)) (some []) = ok false
differ_at locale_le (some (c ∷ cs)) (some (d ∷ ds)) =
    if not (eqb (length (d ∷ ds)) (length (c ∷ cs)))
    then ok true
    else and_then (compare_single_input_commitments_are_equals locale_le (c ∷ cs) (d ∷ ds))
        λ same. ok (not same)

differ_from :
    (String → String → Bool) → PublishedCommitment → PublishedCommitment → ℕ → ℕ → Result Bool
differ_from locale_le item1 item2 i zero = ok false
differ_from locale_le item1 item2 i (suc n) =
    let rest = differ_from locale_le item1 item2 (suc i) n in
    and_then (differ_at locale_le (lookup (decimal i) item1) (lookup (decimal i) item2))
      λ differ. if differ then ok true else rest

unfoldable pub compare_published_commitments_to_be_differ :
    (String → String → Bool) → PublishedCommitment → PublishedCommitment → ℕ → Result Bool
unfolding differ_from
compare_published_commitments_to_be_differ locale_le item1 item2 input_length =
    differ_from locale_le item1 item2 0 input_length
