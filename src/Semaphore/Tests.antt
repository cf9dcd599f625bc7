-- ===== src/Semaphore/Tests.antt =====
-- Runs of src/semaphore.c, and the theorems about it at concrete arguments.
use bind_dyndb_ldap_pagure_i.Prelude.{ℕ, ◌+◌, ◌≤◌, ◌≡◌, refl, true, false, ◌⊎◌, List, [], ◌∷◌}
use bind_dyndb_ldap_pagure_i.Isc.{IscResult, success, timedout, shuttingdown, returns}
use bind_dyndb_ldap_pagure_i.Semaphore.{
  Semaphore, semaphore_init, semaphore_wait, timed_loop, semaphore_wait_timed, semaphore_signal,
  Round, sync_concurr_limit_wait,
}
use bind_dyndb_ldap_pagure_i.Semaphore.Limit.{
  Slots, Move, takes, takes_timed, gives, move, move_all, semaphore_limits, Enters, Exits,
  sync_concurr_limit_wait_outcomes,
}

abbrev two : Semaphore
two = record { value = 2 }

abbrev moves : List Move
moves = takes ∷ takes_timed ∷ takes_timed ∷ gives ∷ []

abbrev one_taken : Slots
one_taken = record { semaphore = record { value = 1 }; taken = 1 }

init_two : semaphore_init 2 success success ≡ returns (success, two)
unfolding semaphore_init
init_two = refl

-- The third to come runs out of time.
run_moves : move_all timedout (record { semaphore = two; taken = 0 }) moves ≡ returns one_taken
unfolding move_all move semaphore_wait semaphore_wait_timed timed_loop semaphore_signal
run_moves = refl

semaphore_limits_example : (1 + 1 ≡ 2) × (1 ≤ 2)
semaphore_limits_example = semaphore_limits timedout 2 two moves one_taken refl init_two run_moves

abbrev waits : List (IscResult × ℕ)
waits = (success, 0) ∷ (success, 3) ∷ []

wait_run : semaphore_wait_timed success 0 waits ≡ returns (success, two)
unfolding semaphore_wait_timed timed_loop
wait_run = refl

abbrev rounds : List Round
rounds =
    record {
      exiting = false;
      deadline = success;
      time = success;
      value = 0;
      waits = (timedout, 0) ∷ [];
    }
    ∷ record { exiting = true; deadline = success; time = success; value = 0; waits = [] }
    ∷ []

rounds_run : sync_concurr_limit_wait rounds ≡ returns shuttingdown
unfolding sync_concurr_limit_wait semaphore_wait_timed timed_loop
rounds_run = refl

sync_concurr_limit_wait_outcomes_example :
    ((shuttingdown ≡ success) × Enters rounds) ⊎ ((shuttingdown ≡ shuttingdown) × Exits rounds)
sync_concurr_limit_wait_outcomes_example =
    sync_concurr_limit_wait_outcomes rounds shuttingdown rounds_run
