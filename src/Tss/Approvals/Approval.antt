-- ===== src/Tss/Approvals/Approval.antt =====
-- What an approval of another guard makes the guard that asked post.
use sign_protocols.Prelude.{
  ℕ, String, ◌≡◌, refl, ap, ◌∙◌, ◌⊎◌, inl, inr, some, List, [], ◌∷◌, ◌++◌, true, false, arith,
  length, Bool-cases, Option-cases,
}
use sign_protocols.Exec.{ok, Result-value}
use sign_protocols.Communicator.{Communicator, get_date, get_index, send_message}
use sign_protocols.Communicator.Index.{guard_pks-get_index, guard_pks-send_message}
use sign_protocols.Detection.State.{ActiveGuard}
use sign_protocols.Tss.State.{
  SignPayload, start, start_message, Sign, Request, sign_payload_json, SignData, SignApprovePayload,
  Tss, meets,
}
use sign_protocols.Tss.Turns.{is_no_work_time}
use sign_protocols.Tss.Queue.{get_sign, update_sign}
use sign_protocols.Tss.Approved.{SignerHost, get_approved_guards, sign_data}
use sign_protocols.Tss.Approvals.{handle_approve_message, add_signature, others, announce}
use sign_protocols.Tss.Quorum.{Selected, get_approved_guards-Selected}
use sign_protocols.Tss.Starting.{get_sign-found, get_sign-update_sign, posts-start_sign}

-- Neither a message sent nor a sign changed in the queue is seen in what is posted.
sign_data-comm :
    (date : ℕ) (c : Communicator SignPayload) (signs : List Sign) (s : Tss) (sign : Sign)
    (msg : String) (guards : List ActiveGuard)
    → c.guard_pks ≡ s.guard_pks
    → sign_data date (record s { comm = c; signs = signs }) sign msg guards
      ≡ sign_data date s sign msg guards
sign_data-comm date c signs s sign msg guards h = rw h

get_sign-comm :
    (msg : String) (c : Communicator SignPayload) (s : Tss)
    → get_sign msg false (record s { comm = c }) ≡ get_sign msg false s
unfolding get_sign
get_sign-comm msg c s = refl

-- An approval with `signature` of guard `index` made this guard, which had asked, post `sign`.
pub record Approval (host : SignerHost) (s : Tss) (msg : String) (index : ℕ) (signature : String)
    (posts : List SignData) : Type 0 where
  pub sign : Sign
  pub req : Request
  pub my_index : ℕ
  pub approved : List ActiveGuard
  pub queued : get_sign msg false s ≡ some sign
  pub requested : sign.request ≡ some req
  pub working : is_no_work_time host.node.now s ≡ false
  pub indexed : (get_index host.enc s.comm).0 ≡ ok my_index
  pub selected :
      Selected host.enc s.guard_pks req.timestamp
        (record { msg = msg; guards = req.guards; init_guard_index = my_index })
        (add_signature index signature sign).signs
        req.guards
        approved
  pub enough : meets (length approved) s.threshold.value ≡ true
  pub posted :
      posts
      ≡ s.posts
        ++ sign_data (get_date host.node.now) s (add_signature index signature sign) msg approved
          ∷ []

-- what the start message and `startSign` post when the sign is open
module _ (host : SignerHost) where
  posts-announce :
      (sign : Sign) (req : Request) (guards : List ActiveGuard) (s : Tss)
      → get_sign sign.msg false s ≡ some sign
      → let posts = (announce host sign req guards (some sign) s).1.posts in
        (posts ≡ s.posts)
        ⊎ (posts ≡ s.posts ++ sign_data (get_date host.node.now) s sign sign.msg guards ∷ [])
  unfolding announce
  posts-announce sign req guards s e =
      let sent =
        send_message host.enc host.node.now start_message (start sign.msg sign.signs req.guards)
          (others host guards) (some req.timestamp) s.comm in
      elim (Result-value sent.0) [
        | inr (x, z) ↦ inl (ground arith)
        | inl (u, z) ↦ inr (
            ground (
              arith,
              get_sign-comm sign.msg sent.1 s,
              e,
              posts-start_sign host sign.msg guards (record s { comm = sent.1 }) sign,
              sign_data-comm (get_date host.node.now) sent.1 s.signs s sign sign.msg guards,
              guard_pks-send_message host.enc s.comm host.node.now start_message
                  (start sign.msg sign.signs req.guards) (others host guards) (some req.timestamp),
            ))
      ]

module _ (host : SignerHost) where
  -- what happens once the approvals are as many as the threshold asks
  enough_approvals :
      (payload : SignApprovePayload) (sender : String) (index : ℕ) (signature : String) (s : Tss)
      (sign : Sign) (req : Request) (mine : ℕ) (approved : List ActiveGuard)
      → get_sign payload.msg false s ≡ some sign
      → sign.request ≡ some req
      → is_no_work_time host.node.now s ≡ false
      → (get_index host.enc s.comm).0 ≡ ok mine
      → get_approved_guards host.enc s.guard_pks req.timestamp
          (record { msg = payload.msg; guards = req.guards; init_guard_index = mine })
          (add_signature index signature sign).signs
          req.guards
        ≡ ok approved
      → meets (length approved) s.threshold.value ≡ true
      → ((handle_approve_message host payload sender index signature s).1.posts ≡ s.posts)
        ⊎ Approval host s payload.msg index signature
            (handle_approve_message host payload sender index signature s).1.posts
  unfolding handle_approve_message
  enough_approvals payload sender index signature s sign req mine approved e r w i f q =
      let m : sign.msg ≡ payload.msg = (get_sign-found payload.msg s sign e).2 in
      let signed : Sign = add_signature index signature sign in
      let k = guard_pks-get_index host.enc s.comm in
      let c : Communicator SignPayload = (get_index host.enc s.comm).1 in
      let changed : Tss = update_sign sign.msg (add_signature index signature) s in
      let found : get_sign sign.msg false changed ≡ some signed =
        get_sign-update_sign sign.msg (add_signature index signature) s sign
          (ap (λ k. get_sign k false s) m ∙ e) refl refl in
      let open_sign = get_sign-comm sign.msg c changed ∙ found in
      elim (posts-announce host signed req approved (record changed { comm = c }) open_sign) [
        | inl z ↦ inl (ground (arith, m, k, open_sign, z))
        | inr z ↦ inr (record {
          sign = sign;
          req = req;
          my_index = mine;
          approved = approved;
          queued = e;
          requested = r;
          working = w;
          indexed = i;
          selected =
              get_approved_guards-Selected host.enc s.guard_pks req.timestamp _ signed.signs
                req.guards approved f;
          enough = q;
          posted = ground (
            arith,
            m,
            k,
            open_sign,
            z,
            sign_data-comm (get_date host.node.now) c changed.signs s signed sign.msg approved,
          );
        })
      ]

  -- An approval either posts nothing, or all of this holds: the message is in the queue, not posted
  -- yet and asked for by this guard, the round has time left, the guards posted are exactly those
  -- whose signatures of the request are good, the new one included, there are as many of them as
  -- the threshold asks, and one body is posted, for that message and those guards.
  pub handle_approve_message-Approval :
      (payload : SignApprovePayload) (sender : String) (index : ℕ) (signature : String) (s : Tss)
      → ((handle_approve_message host payload sender index signature s).1.posts ≡ s.posts)
        ⊎ Approval host s payload.msg index signature
            (handle_approve_message host payload sender index signature s).1.posts
  unfolding handle_approve_message
  handle_approve_message-Approval payload sender index signature s =
      elim (Option-cases (get_sign payload.msg false s)) [
        | inl e ↦ inl (ground arith)
        | inr (sign, e) ↦ elim (Option-cases sign.request) [
          | inl r ↦ inl (ground arith)
          | inr (req, r) ↦ elim (Bool-cases (is_no_work_time host.node.now s)) [
            | inl w ↦ inl (ground arith)
            | inr w ↦ elim (Result-value (get_index host.enc s.comm).0) [
              | inr (x, i) ↦ inl (ground arith)
              | inl (mine, i) ↦
                  let m : sign.msg ≡ payload.msg = (get_sign-found payload.msg s sign e).2 in
                  let k = guard_pks-get_index host.enc s.comm in
                  elim (Result-value (
                    get_approved_guards host.enc s.guard_pks req.timestamp
                      (record { msg = payload.msg; guards = req.guards; init_guard_index = mine })
                      (add_signature index signature sign).signs req.guards)) [
                        | inr (x, f) ↦ inl (ground (arith, m, k))
                        | inl (approved, f) ↦
                            elim (Bool-cases (meets (length approved) s.threshold.value)) [
                              | inr q ↦ inl (ground (arith, m, k))
                              | inl q ↦
                                  enough_approvals payload sender index signature s sign req mine
                                    approved e r w i f q
                            ]
                      ]
            ]
          ]
        ]
      ]
