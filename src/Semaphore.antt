-- ===== src/Semaphore.antt =====
-- src/semaphore.c, and the two functions of src/syncrepl.c that limit the number of unprocessed
-- events with it. The value starts positive and is decremented only when it is positive, so the
-- `int` is a natural number here. What other threads do to it while a thread waits is an argument.
pub mod Limit
mod Tests
use bind_dyndb_ldap_pagure_i.Prelude.{
  ℕ, zero, suc, ◌+◌, ◌-◌, ◌<◌, Bool, true, false, List, [], ◌∷◌, ltb, ◌==◌, if◌then◌else◌,
}
use bind_dyndb_ldap_pagure_i.Isc.{
  IscResult, success, shuttingdown, is_success, Run, returns, aborts, undefined, blocks, ◌>>=◌,
  ◌>>◌, require,
}

pub record Semaphore : Type 0 where
  pub value : ℕ

-- The results of `isc_mutex_init` and of `isc_condition_init`.
unfoldable pub semaphore_init : ℕ → IscResult → IscResult → Run (IscResult × Semaphore)
semaphore_init value mutex cond = do
  require (ltb 0 value)
  returns (if is_success mutex then cond else mutex, record { value = value })

-- The values that the loop's condition sees, one after each wait.
unfoldable pub semaphore_wait : List ℕ → Run Semaphore
semaphore_wait [] = blocks
semaphore_wait (value ∷ later) =
    let again = semaphore_wait later in
    if value == 0 then again else returns (record { value = value - 1 })

-- `waits` holds the result of each WAITUNTIL with the value after it.
unfoldable pub timed_loop : ℕ → List (IscResult × ℕ) → Run (IscResult × Semaphore)
timed_loop value [] = if value == 0 then blocks else returns (success, record { value = value - 1 })
timed_loop value ((r, value') ∷ later) =
    let again = timed_loop value' later in
    if value == 0
    then (if is_success r then again else returns (r, record { value = value' }))
    else returns (success, record { value = value - 1 })

-- `time` is the result of `isc_time_nowplusinterval`. Where it fails, the jump to `cleanup` skips
-- LOCK and still comes to UNLOCK.
unfoldable pub semaphore_wait_timed :
    IscResult → ℕ → List (IscResult × ℕ) → Run (IscResult × Semaphore)
unfolding timed_loop
semaphore_wait_timed time value waits =
    if is_success time then timed_loop value waits else undefined

unfoldable pub semaphore_signal : Semaphore → Semaphore
semaphore_signal sem = record sem { value = sem.value + 1 }

-- One round of the loop: the flag of the instance, the result for the deadline that is computed
-- and not used, and what the timed wait meets.
pub record Round : Type 0 where
  pub exiting : Bool
  pub deadline : IscResult
  pub time : IscResult
  pub value : ℕ
  pub waits : List (IscResult × ℕ)

abbrev pub after_wait : Run (IscResult × Semaphore) → Run IscResult → Run IscResult
after_wait (returns (success, sem)) again = returns success
after_wait (returns (r, sem)) again = again
after_wait aborts again = aborts
after_wait undefined again = undefined
after_wait blocks again = blocks

unfoldable pub sync_concurr_limit_wait : List Round → Run IscResult
unfolding semaphore_wait_timed
sync_concurr_limit_wait [] = blocks
sync_concurr_limit_wait (r ∷ rounds) =
    let again = sync_concurr_limit_wait rounds in
    if r.exiting then returns shuttingdown else do
      require (is_success r.deadline)
      after_wait (semaphore_wait_timed r.time r.value r.waits) again

unfoldable pub sync_concurr_limit_signal : Semaphore → Semaphore
unfolding semaphore_signal
sync_concurr_limit_signal sem = semaphore_signal sem

abbrev pub ldap_concurrency_limit : ℕ
ldap_concurrency_limit = 100
