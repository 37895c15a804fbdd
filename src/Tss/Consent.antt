-- ===== src/Tss/Consent.antt =====
-- What a start message of another guard makes this one post.
use sign_protocols.Prelude.{
  ℕ, String, ◌≡◌, refl, ◌⊎◌, inl, inr, Option, none, some, List, [], ◌∷◌, ◌++◌, true, false,
  replicate, get_elem?, index_of, arith, length, any, Bool-cases, Option-cases, ◌==◌,
}
use sign_protocols.Exec.{ok, Result-value}
use sign_protocols.Communicator.{get_date}
use sign_protocols.Detection.State.{ActiveGuard}
use sign_protocols.Tss.State.{Sign, sign_payload_json, SignData, SignApprovePayload, Tss, meets}
use sign_protocols.Tss.Turns.{get_guard_turn, is_turn}
use sign_protocols.Tss.Queue.{get_sign}
use sign_protocols.Encryption.{EncryptionHandler}
use sign_protocols.Tss.Approved.{SignerHost, check_guard, get_approved_guards, sign_data}
use sign_protocols.Tss.Approvals.{handle_start_message}
use sign_protocols.Tss.Quorum.{Selected, get_approved_guards-Selected}
use sign_protocols.Tss.Starting.{get_sign-found, posts-start_sign}

-- The message of guard `index` whose turn it is made this guard post `sign`.
pub record Consent (host : SignerHost) (s : Tss) (msg : String) (signs : List (Option String))
    (guards : List ActiveGuard) (timestamp index : ℕ) (posts : List SignData) : Type 0 where
  pub sign : Sign
  pub approved : List ActiveGuard
  pub queued : get_sign msg false s ≡ some sign
  pub on_turn : is_turn (get_guard_turn host.node.now s) index ≡ true
  pub involved : any (λ g. g.public_key == host.enc.get_pk) guards ≡ true
  pub selected :
      Selected host.enc s.guard_pks timestamp
        (record { msg = msg; guards = guards; init_guard_index = index })
        signs
        guards
        approved
  pub enough : meets (length approved) s.threshold.value ≡ true
  pub posted : posts ≡ s.posts ++ sign_data (get_date host.node.now) s sign msg approved ∷ []

module _ (host : SignerHost) where
  -- A start message either posts nothing, or all of this holds: the message to sign is in the queue
  -- and not posted yet, the sender's turn it is, this guard's key is among the guards, the guards
  -- posted are exactly those whose signatures of the request are good, there are as many of them as
  -- the threshold asks, and one body is posted, for that message and those guards.
  pub handle_start_message-Consent :
      (msg : String) (signs : List (Option String)) (guards : List ActiveGuard)
      (timestamp index : ℕ) (sender : String) (s : Tss)
      → ((handle_start_message host msg signs guards timestamp index sender s).1.posts ≡ s.posts)
        ⊎ Consent host s msg signs guards timestamp index
            (handle_start_message host msg signs guards timestamp index sender s).1.posts
  unfolding handle_start_message
  handle_start_message-Consent msg signs guards timestamp index sender s =
      elim (Option-cases (get_sign msg false s)) [
        | inl e ↦ inl (ground arith)
        | inr (sign, e) ↦ elim (Bool-cases (is_turn (get_guard_turn host.node.now s) index)) [
          | inr t ↦ inl (ground arith)
          | inl t ↦ elim (Bool-cases (any (λ g. g.public_key == host.enc.get_pk) guards)) [
            | inr v ↦ inl (ground arith)
            | inl v ↦
                let m : sign.msg ≡ msg = (get_sign-found msg s sign e).2 in
                elim (Result-value (
                  get_approved_guards host.enc s.guard_pks timestamp
                    (record { msg = msg; guards = guards; init_guard_index = index }) signs
                    guards)) [
                      | inr (x, f) ↦ inl (ground (arith, m))
                      | inl (approved, f) ↦
                          elim (Bool-cases (meets (length approved) s.threshold.value)) [
                            | inr q ↦ inl (ground (arith, m))
                            | inl q ↦ inr (record {
                              sign = sign;
                              approved = approved;
                              queued = e;
                              on_turn = t;
                              involved = v;
                              selected =
                                  get_approved_guards-Selected host.enc s.guard_pks timestamp _
                                    signs guards approved f;
                              enough = q;
                              posted =
                                  ground (arith, m, posts-start_sign host msg approved s sign e);
                            })
                          ]
                    ]
          ]
        ]
      ]

-- the signs that hold no signature
abbrev pub unsigned : List String → List (Option String)
unsigned pks = replicate (length pks) (some "")

get_elem?-unsigned :
    (k : String) (pks : List String) (i : ℕ)
    → index_of k pks ≡ some i
    → get_elem? (unsigned pks) i ≡ some (some "")
get_elem?-unsigned k [] i h = cc
get_elem?-unsigned k (x ∷ pks) i h = elim (Option-cases (index_of k pks)) [
  | inl e ↦ ground arith
  | inr (m, e) ↦ ground (arith, get_elem?-unsigned k pks m)
]

check_guard-unsigned :
    (enc : EncryptionHandler) (timestamp : ℕ) (payload : SignApprovePayload) (pks : List String)
    (guard : ActiveGuard)
    → check_guard enc timestamp payload pks (unsigned pks) guard ≡ ok none
unfolding check_guard
check_guard-unsigned enc timestamp payload pks guard =
    elim (Option-cases (index_of guard.public_key pks)) [
      | inl e ↦ ground arith
      | inr (i, e) ↦ ground (arith, get_elem?-unsigned guard.public_key pks i)
    ]

get_approved_guards-unsigned :
    (enc : EncryptionHandler) (pks : List String) (timestamp : ℕ) (payload : SignApprovePayload)
    (guards : List ActiveGuard)
    → get_approved_guards enc pks timestamp payload (unsigned pks) guards ≡ ok []
unfolding get_approved_guards
get_approved_guards-unsigned enc pks timestamp payload [] = refl
get_approved_guards-unsigned enc pks timestamp payload (g ∷ gs) = ground (
  arith,
  check_guard-unsigned enc timestamp payload pks g,
  get_approved_guards-unsigned enc pks timestamp payload gs,
)

-- A guard that has not asked for the threshold yet posts without any approval: if the threshold is
-- the initial one, the message is in the queue and not posted, it is the sender's turn and this
-- guard is among the guards, then a start message whose signs are all empty makes it post a body
-- without peers.
pub start_without_approvals :
    (host : SignerHost) (msg : String) (guards : List ActiveGuard) (timestamp index : ℕ)
    (sender : String) (s : Tss) (sign : Sign)
    → s.threshold.value ≡ none
    → get_sign msg false s ≡ some sign
    → is_turn (get_guard_turn host.node.now s) index ≡ true
    → any (λ g. g.public_key == host.enc.get_pk) guards ≡ true
    → (handle_start_message host msg (unsigned s.guard_pks) guards timestamp index sender s).1.posts
      ≡ s.posts ++ sign_data (get_date host.node.now) s sign msg [] ∷ []
unfolding handle_start_message
start_without_approvals host msg guards timestamp index sender s sign new queued turn involved =
    ground (
      arith,
      (get_sign-found msg s sign queued).2,
      posts-start_sign host msg [] s sign,
      get_approved_guards-unsigned host.enc s.guard_pks timestamp
          (record { msg = msg; guards = guards; init_guard_index = index }) guards,
    )
