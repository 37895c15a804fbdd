-- ===== src/Tss/Approved.antt =====
-- Counting approvals and posting to the tss service: `getApprovedGuards` and `startSign`.
use sign_protocols.Prelude.{
  ℕ, ◌+◌, String, Option, none, some, List, [], ◌∷◌, ◌++◌, Bool, true, false, not, map, get_elem?,
  index_of, keep_if, sub_ℕ, if◌then◌else◌, ◌==◌,
}
use sign_protocols.Exec.{Result, ok, err}
use sign_protocols.Encryption.{EncryptionHandler}
use sign_protocols.Communicator.{get_date, generate_payload_to_sign}
use sign_protocols.Detection.State.{ActiveGuard, Host}
use sign_protocols.Tss.State.{
  Sign, SignApprovePayload, approve, sign_payload_json, Peer, SignData, TssApi, Tss,
}
use sign_protocols.Tss.Queue.{get_sign, update_sign, has_msg, call_back}
use sign_protocols.Tss.Schemes.{Scheme}

-- What the signer takes from outside: the node that its detection runs on, with the clock, its own
-- keys, the tss service, the scheme, and the curves' verification.
pub record SignerHost : Type 0 where
  pub node : Host
  pub enc : EncryptionHandler
  pub api : TssApi
  pub scheme : Scheme
  pub curve_verify : Scheme → String → String → String → Result Bool

-- `verifiedSign ? guard : undefined`
abbrev when_verified : ActiveGuard → Result Bool → Result (Option ActiveGuard)
when_verified guard (ok true) = ok (some guard)
when_verified guard (ok false) = ok none
when_verified guard (err e) = err e

module _ (enc : EncryptionHandler) (timestamp : ℕ) (payload : SignApprovePayload) where
  -- the sign at the guard's index; the verification throws on `undefined`
  check_sign : ActiveGuard → Option (Option String) → Result (Option ActiveGuard)
  check_sign guard none = err "TypeError"
  check_sign guard (some none) = err "TypeError"
  check_sign guard (some (some sign)) =
      if sign == ""
      then ok none
      else when_verified guard (
          enc.verify (generate_payload_to_sign (approve payload) timestamp guard.public_key) sign
            guard.public_key)

  check_at : List (Option String) → ActiveGuard → Option ℕ → Result (Option ActiveGuard)
  unfolding check_sign
  check_at signs guard none = ok none
  check_at signs guard (some index) = check_sign guard (get_elem? signs index)

  -- the function that `getApprovedGuards` maps over the guards
  unfoldable pub check_guard :
      List String → List (Option String) → ActiveGuard → Result (Option ActiveGuard)
  unfolding check_at
  check_guard pks signs guard = check_at signs guard (index_of guard.public_key pks)

abbrev collect : Result (Option ActiveGuard) → Result (List ActiveGuard) → Result (List ActiveGuard)
collect (err e) rest = err e
collect (ok found) (err e) = err e
collect (ok none) (ok guards) = ok guards
collect (ok (some guard)) (ok guards) = ok (guard ∷ guards)

unfoldable pub get_approved_guards :
    EncryptionHandler
    → List String
    → ℕ
    → SignApprovePayload
    → List (Option String)
    → List ActiveGuard
    → Result (List ActiveGuard)
get_approved_guards enc pks timestamp payload signs [] = ok []
get_approved_guards enc pks timestamp payload signs (guard ∷ guards) =
    collect (check_guard enc timestamp payload pks signs guard)
      (get_approved_guards enc pks timestamp payload signs guards)

abbrev share_at : List String → Option ℕ → Option String
share_at shares none = none
share_at shares (some i) = get_elem? shares i

abbrev to_peer : List String → List String → ActiveGuard → Peer
to_peer shares pks guard = record {
  share_id = share_at shares (index_of guard.public_key pks);
  p2p_id = guard.peer_id;
}

abbrev pub sign_data : ℕ → Tss → Sign → String → List ActiveGuard → SignData
sign_data date s sign message guards = record {
  peers = map (to_peer s.shares s.guard_pks) guards;
  message = message;
  crypto = s.signing_crypto;
  operation_timeout = sub_ℕ (s.timeout + sign.added_time) (date + s.response_delay);
  call_back_url = s.callback_url;
  chain_code = sign.chain_code;
  derivation_path = sign.derivation_path;
}

module _ (host : SignerHost) where
  -- the `catch` of the post
  after_post : Sign → Option (Option String) → Tss → Tss
  after_post sign none s = s
  after_post sign (some status_code) s =
      let told = call_back sign.callback false status_code none none s in
      record told { signs = keep_if (λ item. not (has_msg sign.msg item)) told.signs }

  post_sign : String → List ActiveGuard → Option Sign → Tss → Tss
  unfolding after_post
  post_sign message guards none s = s
  post_sign message guards (some sign) s =
      let body = sign_data (get_date host.node.now) s sign message guards in
      let marked = update_sign message (λ sign. record sign { posted = true }) s in
      after_post sign (host.api.sign body) (record marked { posts = marked.posts ++ body ∷ [] })

  unfoldable pub start_sign : String → List ActiveGuard → Tss → Tss
  unfolding post_sign
  start_sign message guards s = post_sign message guards (get_sign message false s) s
