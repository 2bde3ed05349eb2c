-- ===== src/Attempt/Examples.antt =====
-- An attempt that is created, leased, aborted and retried, and the theorems at those tables.
use aegis_forge.Prelude.{
  ◌≡◌, refl, true, false, some, List, [], ◌∷◌, Memᴰ, map, arith, if◌then◌else◌,
}
use mathlib.Core.List.{Perm}
use aegis_forge.Prelude.Result.{ok, err}
use aegis_forge.Prelude.Table.{select, has_key, update, changes}
use aegis_forge.Attempt.State.{
  authorized, leased, running, aborted, of_value, allowed, is_terminal, state_eq,
}
use aegis_forge.Attempt.Defs.{
  Attempt, Attempts, Request, Details, latest, create, transition, transition_to, write,
  new_attempt, attempt_state_conflict, idempotency_key_active, invalid_attempt_state,
  invalid_transition, apply_change, find_by_idempotency_key, has_number, insert, next_number,
  required,
}
use aegis_forge.Attempt.Leases.{at_time, expire_leases, find_stale_running, take}
use aegis_forge.Attempt.Reach.{
  created, moved, Reach, here, next, Reach-IsValid, IsValid-empty, open_attempt_unique,
}
use aegis_forge.Attempt.CreateLaws.{admitted, create_lem}
use aegis_forge.Attempt.TransitionLaws.{
  moved as moved_to, write-write_conflict, transition_to_found,
}
use aegis_forge.Attempt.History.{Evolves, history_keeps}
use aegis_forge.Attempt.Expiry.{lapse, all_closed, expire_leases-map}
use aegis_forge.Attempt.Stale.{IsSorted, stale_rows, find_stale_running_lem}

abbrev first : Request
first = record {
  task_id = "task";
  grant_id = "grant-1";
  intent_hash = "hash";
  idempotency_key = "key";
  now = 100;
  retry = false;
  fresh = "attempt_1";
}

abbrev second : Request
second = record first { grant_id = "grant-2"; now = 900; retry = true; fresh = "attempt_2" }

abbrev opened : Attempt
opened = new_attempt first 1

abbrev lease_it : Details
lease_it = record (at_time 200) {
  executor_id = "exec";
  executor_version = "1";
  executor_identity_epoch = 1;
}

abbrev leased_attempt : Attempt
leased_attempt = record opened {
  state = leased;
  lease_expires_at = some 300000200;
  executor_id = some "exec";
  executor_version = some "1";
  executor_identity_epoch = 1;
}

abbrev running_attempt : Attempt
running_attempt = record leased_attempt { state = running; started_at = some 300 }

abbrev aborted_attempt : Attempt
aborted_attempt = record leased_attempt { state = aborted; finished_at = some 400 }

abbrev opened_other : Attempt
opened_other = record opened { attempt_id = "attempt_9"; idempotency_key = "other" }

abbrev retried : Attempts
retried = aborted_attempt ∷ new_attempt second 2 ∷ []

created_first : create first [] ≡ (ok opened, opened ∷ [])
unfolding create required find_by_idempotency_key latest has_key insert has_number next_number
created_first = refl

leased_first :
    transition "attempt_1" "LEASED" lease_it (opened ∷ [])
    ≡ (ok leased_attempt, leased_attempt ∷ [])
unfolding transition transition_to select of_value allowed write changes update state_eq
    apply_change is_terminal
leased_first = refl

run_first :
    transition_to "attempt_1" running (at_time 300) (leased_attempt ∷ [])
    ≡ (ok running_attempt, running_attempt ∷ [])
unfolding transition_to select allowed write changes update state_eq apply_change is_terminal
run_first = refl

unknown_state :
    transition "attempt_1" "DONE" lease_it (opened ∷ []) ≡ (err invalid_attempt_state, opened ∷ [])
unfolding transition of_value
unknown_state = refl

-- A key with an attempt that is not over is refused, also to a retry.
active_refused :
    create second (leased_attempt ∷ []) ≡ (err idempotency_key_active, leased_attempt ∷ [])
unfolding create required find_by_idempotency_key select latest is_terminal next_number
active_refused = refl

create_again : create second (aborted_attempt ∷ []) ≡ (ok (new_attempt second 2), retried)
unfolding create required find_by_idempotency_key select latest is_terminal has_key insert
    has_number next_number
create_again = refl

history : Reach [] retried
unfolding create required find_by_idempotency_key select latest has_key insert has_number
    next_number transition_to allowed write changes update state_eq apply_change is_terminal
history =
    next
      (next (next (next here (created first refl)) (moved "attempt_1" leased lease_it refl))
        (moved "attempt_1" aborted (at_time 400) refl))
      (created second refl)

open_attempt_unique_example : new_attempt second 2 ≡ new_attempt second 2
unfolding is_terminal
open_attempt_unique_example =
    open_attempt_unique (new_attempt second 2) (new_attempt second 2) history
      (Memᴰ.tail (Memᴰ.head refl)) (Memᴰ.tail (Memᴰ.head refl)) refl refl refl

history_keeps_example :
    (r' : Attempt) × (select Attempt.attempt_id "attempt_1" (opened ∷ []) ≡ some r')
    × Evolves opened r'
unfolding select create required find_by_idempotency_key latest has_key insert has_number
    next_number
history_keeps_example =
    history_keeps {t = opened ∷ []} "attempt_1" opened
      (Reach-IsValid IsValid-empty (next here (created first refl))) here refl

write-write_conflict_example :
    write opened aborted (at_time 5) (write opened leased lease_it (opened ∷ [])).1
    ≡ (err attempt_state_conflict, (write opened leased lease_it (opened ∷ [])).1)
unfolding select has_key allowed
write-write_conflict_example =
    write-write_conflict opened leased aborted lease_it (at_time 5) (opened ∷ []) (refl, tt) refl
      refl

create_lem_example :
    create second (aborted_attempt ∷ [])
    ≡ admitted second (latest "key" (aborted_attempt ∷ [])) (aborted_attempt ∷ [])
unfolding has_key required select transition_to allowed write changes update state_eq apply_change
    is_terminal create find_by_idempotency_key latest insert has_number next_number
create_lem_example =
    create_lem second (aborted_attempt ∷ [])
      (Reach-IsValid IsValid-empty (
        next (next (next here (created first refl)) (moved "attempt_1" leased lease_it refl))
          (moved "attempt_1" aborted (at_time 400) refl)))
      refl refl

transition_to_found_example : transition_to "attempt_1" leased lease_it (opened ∷ []) ≡ (
    if allowed authorized leased
    then (
      ok (apply_change opened leased lease_it opened),
      moved_to opened leased lease_it (opened ∷ []),
    )
    else (err (invalid_transition authorized leased), opened ∷ []))
unfolding select has_key
transition_to_found_example =
    transition_to_found "attempt_1" leased lease_it (opened ∷ []) opened (refl, tt) refl

expire_leases-map_example : expire_leases 300000200 (leased_attempt ∷ opened_other ∷ []) ≡ (
  all_closed 300000200 (leased_attempt ∷ opened_other ∷ []),
  map (lapse 300000200) (leased_attempt ∷ opened_other ∷ []),
)
unfolding has_key
expire_leases-map_example =
    expire_leases-map 300000200 (leased_attempt ∷ opened_other ∷ []) (refl, (refl, tt))

find_stale_running_lem_example :
    (all : List Attempt) × (find_stale_running 300000200 5 (running_attempt ∷ [])
      ≡ (ok (take 5 all), running_attempt ∷ []))
    × Perm all (stale_rows 300000200 (running_attempt ∷ []))
    × IsSorted all
unfolding has_key
find_stale_running_lem_example =
    find_stale_running_lem 300000200 5 (running_attempt ∷ []) (refl, tt) (omega arith)
