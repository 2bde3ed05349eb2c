-- ===== src/Attempt/State.antt =====
-- shared/execution_attempt.py: the states of an execution attempt and the table of transitions.
use aegis_forge.Prelude.{
  ℕ, String, ◌≡◌, refl, ◌↔◌, Bool, true, false, Option, none, some, arith, ◌==◌, eqb, if◌then◌else◌,
}

pub data AttemptState : Type 0 where
  authorized leased running succeeded recovered failed timed_out aborted : AttemptState

-- The member's value, as the `state` column holds it.
unfoldable pub value : AttemptState → String
value authorized = "AUTHORIZED"
value leased = "LEASED"
value running = "RUNNING"
value succeeded = "SUCCEEDED"
value recovered = "RECOVERED"
value failed = "FAILED"
value timed_out = "TIMED_OUT"
value aborted = "ABORTED"

-- `ExecutionAttemptState(text)`; `none` where it raises `ValueError`.
unfoldable pub of_value : String → Option AttemptState
of_value s =
    if s == "AUTHORIZED"
    then some authorized
    else if s == "LEASED"
    then some leased
    else if s == "RUNNING"
    then some running
    else if s == "SUCCEEDED"
    then some succeeded
    else if s == "RECOVERED"
    then some recovered
    else if s == "FAILED"
    then some failed
    else if s == "TIMED_OUT"
    then some timed_out
    else if s == "ABORTED"
    then some aborted
    else none

-- `_TERMINAL`
unfoldable pub is_terminal : AttemptState → Bool
is_terminal authorized = false
is_terminal leased = false
is_terminal running = false
is_terminal succeeded = true
is_terminal recovered = true
is_terminal failed = true
is_terminal timed_out = true
is_terminal aborted = true

-- `new_state in _ALLOWED[state]`
unfoldable pub allowed : AttemptState → AttemptState → Bool
allowed authorized leased = true
allowed authorized aborted = true
allowed leased running = true
allowed leased timed_out = true
allowed leased aborted = true
allowed running succeeded = true
allowed running recovered = true
allowed running failed = true
allowed running timed_out = true
allowed running aborted = true
allowed _ _ = false

position : AttemptState → ℕ
position authorized = 0
position leased = 1
position running = 2
position succeeded = 3
position recovered = 4
position failed = 5
position timed_out = 6
position aborted = 7

unfoldable pub state_eq : AttemptState → AttemptState → Bool
unfolding position
state_eq a b = eqb (position a) (position b)

pub state_eq_iff : (a b : AttemptState) → (state_eq a b ≡ true) ↔ (a ≡ b)
unfolding state_eq
state_eq_iff a b = ground arith

pub state_eq_refl : (a : AttemptState) → state_eq a a ≡ true
state_eq_refl a = (state_eq_iff a a).1 refl

-- Decoding is the inverse of the values that the store writes.
pub of_value-value : (s : AttemptState) → of_value (value s) ≡ some s
unfolding of_value value
of_value-value authorized = refl
of_value-value leased = refl
of_value-value running = refl
of_value-value succeeded = refl
of_value-value recovered = refl
of_value-value failed = refl
of_value-value timed_out = refl
of_value-value aborted = refl

-- What leads out of a state is never terminal.
pub allowed-is_terminal : (a b : AttemptState) → allowed a b ≡ true → is_terminal a ≡ false
unfolding allowed is_terminal
allowed-is_terminal a b h = ground arith

-- No transition stays where it is.
pub allowed-state_eq : (a b : AttemptState) → allowed a b ≡ true → state_eq b a ≡ false
unfolding allowed state_eq
allowed-state_eq a b h = ground arith
