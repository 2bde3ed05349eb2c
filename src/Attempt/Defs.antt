-- ===== src/Attempt/Defs.antt =====
-- shared/execution_attempt.py: the row, the errors and the operations of `ExecutionAttemptStore`.
-- An operation takes the table and gives back its result or error with the new table. A time is a
-- number of microseconds: the text column holds UTC ISO timestamps, whose order is that of time.
-- `fresh` is the attempt id that `uuid4` draws.
use aegis_forge.Prelude.{
  ℕ, ◌+◌, String, Bool, true, false, not, ◌&&◌, Option, none, some, List, [], ◌∷◌, ◌++◌, ◌==◌, ltb,
  eqb, is_empty, if◌then◌else◌,
}
use aegis_forge.Prelude.Result.{Result, ok, err, Action, pure, raise, raise_if, lift, ◌>>=◌, ◌>>◌}
use aegis_forge.Prelude.Table.{select, has_key, update, changes}
use aegis_forge.Attempt.State.{
  AttemptState, authorized, leased, running, of_value, is_terminal, allowed, state_eq,
}

pub record Attempt : Type 0 where
  pub attempt_id : String
  pub task_id : String
  pub grant_id : String
  pub intent_hash : String
  pub idempotency_key : String
  pub attempt_number : ℕ
  pub state : AttemptState
  pub created_at : ℕ
  pub lease_expires_at : Option ℕ
  pub started_at : Option ℕ
  pub finished_at : Option ℕ
  pub executor_id : Option String
  pub executor_version : Option String
  pub executor_identity_epoch : ℕ
  pub receipt_id : Option String
  pub error : Option String

pub data AttemptError : Type 0 where
  task_id_required grant_id_required intent_hash_required idempotency_key_required : AttemptError
  idempotency_key_active idempotency_key_reused : AttemptError
  attempt_not_found invalid_attempt_state attempt_state_conflict : AttemptError
  invalid_transition : AttemptState → AttemptState → AttemptError
  limit_must_be_positive : AttemptError
  -- an `sqlite3.IntegrityError` that `create` raises again: the drawn id is taken
  integrity_error : AttemptError

abbrev pub Attempts : Type 0
Attempts = List Attempt

abbrev pub AttemptAction : Type 0 → Type 0
AttemptAction A = Action AttemptError Attempts A

found : Option Attempt → Result AttemptError Attempt
found none = err attempt_not_found
found (some r) = ok r

unfoldable pub get : String → AttemptAction Attempt
unfolding found
get attempt_id t = (found (select Attempt.attempt_id attempt_id t), t)

-- `found`, where a SELECT gave a row: `self.get(row[0]) if row else None`
get_row : Option Attempt → AttemptAction (Option Attempt)
unfolding get
get_row none = pure none
get_row (some r) = do a ← get r.attempt_id; pure (some a)

-- ORDER BY attempt_number DESC LIMIT 1
later : Attempt → Option Attempt → Attempt
later r none = r
later r (some b) = if ltb r.attempt_number b.attempt_number then b else r

unfoldable pub latest : String → Attempts → Option Attempt
unfolding later
latest key [] = none
latest key (r ∷ t) =
    let best = latest key t in if r.idempotency_key == key then some (later r best) else best

unfoldable pub find_by_idempotency_key : String → AttemptAction (Option Attempt)
unfolding get_row
find_by_idempotency_key key t = get_row (latest key t) t

unfoldable pub find_by_grant_id : String → AttemptAction (Option Attempt)
unfolding get_row
find_by_grant_id grant_id t = get_row (select Attempt.grant_id grant_id t) t

-- The unique index on (idempotency_key, attempt_number).
unfoldable pub has_number : String → ℕ → Attempts → Bool
has_number key n [] = false
has_number key n (r ∷ t) =
    if r.idempotency_key == key && eqb r.attempt_number n then true else has_number key n t

-- INSERT, and what `create` makes of an IntegrityError.
unfoldable pub insert : Attempt → AttemptAction Attempt
insert a t =
    if has_key Attempt.attempt_id a.attempt_id t
    then (err integrity_error, t)
    else if has_number a.idempotency_key a.attempt_number t
    then (err idempotency_key_reused, t)
    else (ok a, t ++ a ∷ [])

-- The number of the next attempt under the key.
unfoldable pub next_number : Option Attempt → Bool → AttemptAction ℕ
next_number none retry = pure 1
next_number (some previous) retry = do
  raise_if (not (is_terminal previous.state)) idempotency_key_active
  raise_if (not retry) idempotency_key_reused
  pure (previous.attempt_number + 1)

-- What `create` is told.
pub record Request : Type 0 where
  pub task_id : String
  pub grant_id : String
  pub intent_hash : String
  pub idempotency_key : String
  pub now : ℕ
  pub retry : Bool
  pub fresh : String

abbrev pub new_attempt : Request → ℕ → Attempt
new_attempt q n = record {
  attempt_id = q.fresh;
  task_id = q.task_id;
  grant_id = q.grant_id;
  intent_hash = q.intent_hash;
  idempotency_key = q.idempotency_key;
  attempt_number = n;
  state = authorized;
  created_at = q.now;
  lease_expires_at = none;
  started_at = none;
  finished_at = none;
  executor_id = none;
  executor_version = none;
  executor_identity_epoch = 0;
  receipt_id = none;
  error = none;
}

-- The loop over the four texts that must not be empty.
unfoldable pub required : Request → Result AttemptError (Unit {0})
required q =
    if is_empty q.task_id
    then err task_id_required
    else if is_empty q.grant_id
    then err grant_id_required
    else if is_empty q.intent_hash
    then err intent_hash_required
    else if is_empty q.idempotency_key
    then err idempotency_key_required
    else ok tt

unfoldable pub create : Request → AttemptAction Attempt
create q = do
  lift (required q)
  previous ← find_by_idempotency_key q.idempotency_key
  n ← next_number previous q.retry
  insert (new_attempt q n)

-- The keyword arguments of `transition`.
pub record Details : Type 0 where
  pub now : ℕ
  pub error : String
  pub executor_id : String
  pub executor_version : String
  pub executor_identity_epoch : ℕ
  pub receipt_id : String

-- COALESCE(NULLIF(?,''),column)
abbrev pub override : String → Option String → Option String
override v old = if is_empty v then old else some v

-- timedelta(minutes=5)
abbrev pub lease_time : ℕ
lease_time = 300000000

started : AttemptState → Details → Option ℕ → Option ℕ
started running d none = some d.now
started _ d old = old

-- The SET clause of the UPDATE; `current` is the row as it was read.
unfoldable pub apply_change : Attempt → AttemptState → Details → Attempt → Attempt
unfolding started
apply_change current new_state d r = record r {
  state = new_state;
  lease_expires_at =
      if state_eq new_state leased then some (d.now + lease_time) else current.lease_expires_at;
  started_at = started new_state d current.started_at;
  finished_at = if is_terminal new_state then some d.now else current.finished_at;
  executor_id = override d.executor_id r.executor_id;
  executor_version = override d.executor_version r.executor_version;
  executor_identity_epoch =
      if ltb 0 d.executor_identity_epoch
      then d.executor_identity_epoch
      else r.executor_identity_epoch;
  receipt_id = override d.receipt_id r.receipt_id;
  error = override d.error r.error;
}

-- The UPDATE with its guard `state = <the state that was read>`, and the check of its row count:
-- where another connection has moved the row since, nothing is written.
unfoldable pub write : Attempt → AttemptState → Details → AttemptAction Attempt
unfolding get found
write current new_state d t =
    let guard = λ (r : Attempt). state_eq r.state current.state in
    let t' =
      update Attempt.attempt_id current.attempt_id guard (apply_change current new_state d) t in
    if eqb (changes Attempt.attempt_id current.attempt_id guard t) 1
    then get current.attempt_id t'
    else (err attempt_state_conflict, t)

unfoldable pub transition_to : String → AttemptState → Details → AttemptAction Attempt
unfolding get found
transition_to attempt_id new_state d = do
  current ← get attempt_id
  raise_if (not (allowed current.state new_state)) (invalid_transition current.state new_state)
  write current new_state d

-- `transition` with the new state as a text, which it decodes first.
decoded : Option AttemptState → String → Details → AttemptAction Attempt
decoded none attempt_id d = raise invalid_attempt_state
decoded (some new_state) attempt_id d = transition_to attempt_id new_state d

unfoldable pub transition : String → String → Details → AttemptAction Attempt
unfolding decoded
transition attempt_id new_state d = decoded (of_value new_state) attempt_id d
