-- ===== src/Tss/Rotation.antt =====
-- How turns go round, and how a round ends.
use native.Mathlib.Nat.{
  add-zero, add_comm, mul-add-div_right, add-mul-mod_self_right, mod-eq_of_lt, div-eq_of_lt, mod-lt,
  div-add-mod',
}
use sign_protocols.Prelude.{
  ℕ, zero, suc, ◌+◌, ◌*◌, ◌/◌, ◌%◌, ◌≤◌, ◌<◌, ◌≡◌, ◌↔◌, some, true, arith, length,
}
use sign_protocols.Communicator.{get_date}
use sign_protocols.Tss.State.{Tss}
use sign_protocols.Tss.Turns.{turn_of, get_guard_turn, is_no_work_time}

-- The turns go round: with `count` guards, in the `i`-th turn of every cycle, at every second of
-- that turn, it is the turn of guard `i`. So each guard has a turn in each cycle.
pub turn_of-cycle :
    (cycle i second duration count : ℕ)
    → i < count
    → second < duration
    → turn_of ((cycle * count + i) * duration + second) duration count ≡ some i
unfolding turn_of
turn_of-cycle cycle i second duration zero hi hs = absurd (omega arith)
turn_of-cycle cycle i second duration (suc n) hi hs =
    rw (mul-add-div_right {m = duration} (omega arith) (cycle * suc n + i) second, div-eq_of_lt hs)
      (rw (
        add-zero (cycle * suc n + i),
        add_comm (cycle * suc n) i,
        add-mul-mod_self_right i cycle (suc n),
        mod-eq_of_lt hi,
      ))

turn_of-lt : (date duration count i : ℕ) → turn_of date duration count ≡ some i → i < count
unfolding turn_of
turn_of-lt date duration zero i h = cc
turn_of-lt date duration (suc n) i h = ground (arith, mod-lt (date / duration) {m = suc n})

-- The turn is an index into the keys.
pub get_guard_turn-lt :
    (now : ℕ) (s : Tss) (i : ℕ) → get_guard_turn now s ≡ some i → i < length s.guard_pks
unfolding get_guard_turn
get_guard_turn-lt now s i h = turn_of-lt _ _ (length s.guard_pks) i h

-- A round ends with `turnNoWork` seconds in which no work is started: it is no-work time exactly
-- when that many seconds or fewer are left of the turn.
pub is_no_work_time_iff :
    (now : ℕ) (s : Tss)
    → 0 < s.turn_duration
    → (is_no_work_time now s ≡ true)
      ↔ (s.turn_duration ≤ get_date now % s.turn_duration + s.turn_no_work)
unfolding is_no_work_time get_date
is_no_work_time_iff now s h =
    let e = div-add-mod' (now / 1000) s.turn_duration in
    (λ t. ground (arith, e), λ t. ground (arith, e))
