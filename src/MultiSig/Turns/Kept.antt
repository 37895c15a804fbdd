-- ===== src/MultiSig/Turns/Kept.antt =====
-- What the methods about turns leave of the queue: all of it.
use sign_protocols.Prelude.{ℕ, zero, suc, ◌/◌, sym, arith, length}
use sign_protocols.Exec.{Result, gets}
use sign_protocols.Exec.Triples.{Gives, Anything, Gives-bind, Gives-gets, Gives-read}
use sign_protocols.Tss.Turns.{turn_of, is_turn}
use sign_protocols.MultiSig.Ergo.{ErgoLib}
use sign_protocols.MultiSig.Data.{turn_time, multi_sig_payload_json}
use sign_protocols.MultiSig.State.{MultiSig, MultiSigHost}
use sign_protocols.MultiSig.Since.{Origin, Since, IsPeerIndex, Gives-on_comm}
use sign_protocols.Detection.State.{GuardDetection}
use sign_protocols.MultiSig.Turns.Lookups.{peers_with_ids-Gives, get_current_turn_id-Gives}
use sign_protocols.MultiSig.Turns.{
  peers_with_ids, get_current_turn_ind, get_current_turn_id, is_my_turn, peers_must_be_initialized,
}
use native.Mathlib.Nat.{mod-lt}
use sign_protocols.Communicator.{get_index}
use mathlib.Core.Path.{subst}

pub turn_of-IsPeerIndex : (date duration n : ℕ) → IsPeerIndex n (turn_of date duration n)
unfolding turn_of
turn_of-IsPeerIndex date duration zero = tt
turn_of-IsPeerIndex date duration (suc n) = ground (arith, mod-lt (date / duration) {m = suc n})

module _ {E : ErgoLib} (host : MultiSigHost E) (context : Result E.Context) (s0 : Origin E) where
  pub Gives-turn_ind :
      Gives
        (Since context s0)
        (IsPeerIndex (length s0.guards_pk))
        (gets (get_current_turn_ind host))
  unfolding get_current_turn_ind
  Gives-turn_ind = Gives-gets _ λ s i.
      subst (λ ks. IsPeerIndex (length s0.guards_pk) (turn_of host.now turn_time (length ks)))
        (sym i.peers) (turn_of-IsPeerIndex host.now turn_time (length s0.guards_pk))

  detected :
      (d : GuardDetection (Unit {0})) (s : MultiSig E)
      → Since context s0 s
      → Since context s0 (record s { detection = d })
  detected d s i = record {
    peers = i.peers;
    present = i.present;
    distinct = i.distinct;
    entries = i.entries;
    calls = i.calls;
  }

  pub Gives-peers_with_ids : Gives (Since context s0) Anything (peers_with_ids host)
  Gives-peers_with_ids = peers_with_ids-Gives host detected

  pub Gives-is_my_turn : Gives (Since context s0) Anything (is_my_turn host)
  unfolding is_my_turn
  Gives-is_my_turn =
      Gives-bind (Gives-on_comm context s0 (get_index host.enc))
        λ index _. Gives-read (λ s. is_turn (get_current_turn_ind host s) index)

  pub Gives-get_current_turn_id : Gives (Since context s0) Anything (get_current_turn_id host)
  Gives-get_current_turn_id = get_current_turn_id-Gives host detected

  pub Gives-peers_must_be_initialized :
      Gives (Since context s0) Anything (peers_must_be_initialized host)
  unfolding peers_must_be_initialized
  Gives-peers_must_be_initialized = record { given = λ s i. ground (arith, i) }
