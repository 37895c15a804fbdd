-- ===== src/Tss/Turns.antt =====
-- Whose turn it is, and what runs out: `getGuardTurn`, `isNoWorkTime`, `cleanup`.
use sign_protocols.Prelude.{
  ℕ, zero, suc, ◌+◌, ◌*◌, ◌/◌, ◌%◌, Option, none, some, Bool, false, ltb, leb, eqb, length, keep_if,
}
use sign_protocols.Communicator.{get_date}
use sign_protocols.Tss.State.{Sign, Tss}

-- `Math.floor(date / turnDuration) % count`; a remainder by zero is NaN, here `none`
unfoldable pub turn_of : ℕ → ℕ → ℕ → Option ℕ
turn_of date duration zero = none
turn_of date duration (suc n) = some ((date / duration) % suc n)

unfoldable pub get_guard_turn : ℕ → Tss → Option ℕ
unfolding turn_of
get_guard_turn now s = turn_of (get_date now) s.turn_duration (length s.guard_pks)

-- `turn === index`; NaN equals nothing
abbrev pub is_turn : Option ℕ → ℕ → Bool
is_turn none i = false
is_turn (some t) i = eqb t i

-- `(round + 1) * turnDuration - currentTime <= turnNoWork`
unfoldable pub is_no_work_time : ℕ → Tss → Bool
is_no_work_time now s =
    let date = get_date now in
    leb ((date / s.turn_duration + 1) * s.turn_duration) (s.turn_no_work + date)

-- `sign.addedTime > getDate() - timeout`
abbrev pub is_waiting : ℕ → ℕ → Sign → Bool
is_waiting date timeout sign = ltb date (sign.added_time + timeout)

unfoldable pub cleanup : ℕ → Tss → Tss
cleanup now s =
    let turn = get_guard_turn now s in
    record s {
      signs = keep_if (is_waiting (get_date now) s.timeout) s.signs;
      pending_signs = keep_if (λ pending. is_turn turn pending.index) s.pending_signs;
    }
