-- ===== src/Sync/World.antt =====
-- src/syncrepl.c: the barrier. The tasks with their event queues, and the handlers that run in
-- them. A task takes its events in FIFO order; the scheduler picks any task.
pub mod Queues
pub mod Guarded
pub mod Barrier
pub mod Wait
pub mod Progress
pub mod Liveness
use bind_dyndb_ldap_pagure_i.Prelude.{
  ℕ, zero, suc, ◌-◌, Bool, true, false, Option, none, some, List, [], ◌∷◌, ◌++◌, set, get_elem?,
  length, ◌==◌, if◌then◌else◌,
}
use bind_dyndb_ldap_pagure_i.Isc.{
  IscResult, success, nomemory, Run, returns, aborts, ◌>>=◌, ◌>>◌, require,
}
use bind_dyndb_ldap_pagure_i.Sync.{
  SyncState, sync_configinit, sync_configbarrier, sync_datainit, sync_databarrier, sync_finished,
  SyncCtx, sync_state_change, is_init,
}

-- An LDAP change with its number, the event that runs `barrier_decrement`, and the one that runs
-- `finish`.
pub data Event : Type 0 where
  update : ℕ → Event
  barrierev finishev : Event

-- Task `t` has the queue at index `t`; `inst_task` is the task of the LDAP instance.
pub record World : Type 0 where
  pub ctx : SyncCtx
  pub inst_task : ℕ
  pub queues : List (List Event)
  pub processed : List ℕ

-- `isc_task_send`
unfoldable pub send : List (List Event) → ℕ → Event → List (List Event)
send [] t e = []
send (q ∷ qs) zero e = (q ++ e ∷ []) ∷ qs
send (q ∷ qs) (suc t) e = q ∷ send qs t e

-- The first switch of `sync_barrier_wait`: the state in which it waits, and the one it waits for.
abbrev pub barrier_states : SyncState → Run (SyncState × SyncState)
barrier_states sync_configinit = returns (sync_configbarrier, sync_datainit)
barrier_states sync_datainit = returns (sync_databarrier, sync_finished)
barrier_states _ = aborts

-- The loop that sends one barrier event to each task of the list and takes it off the list.
-- `memory n` says whether the event can be allocated when `n` tasks are left.
unfoldable pub send_barriers :
    (ℕ → Bool) → List ℕ → List (List Event) → IscResult × List ℕ × List (List Event)
send_barriers memory [] qs = (success, [], qs)
send_barriers memory (t ∷ rest) qs =
    let sent = send_barriers memory rest (send qs t barrierev) in
    if memory (length (t ∷ rest)) then sent else (nomemory, t ∷ rest, qs)

abbrev not_empty : List ℕ → Bool
not_empty [] = false
not_empty _ = true

-- `sync_barrier_wait` up to its wait for the final state, which it returns beside the result.
unfoldable pub sync_barrier_start : (ℕ → Bool) → World → Run (IscResult × SyncState × World)
unfolding send_barriers sync_state_change
sync_barrier_start memory w = do
  require (is_init w.ctx.state)
  require (not_empty w.ctx.tasks)
  (barrier_state, final_state) ← barrier_states w.ctx.state
  ctx ← sync_state_change w.ctx barrier_state
  let (r, tasks, qs) = send_barriers memory w.ctx.tasks w.queues
  returns (r, final_state, record w { ctx = record ctx { tasks = tasks }; queues = qs })

-- `isc_refcount_decrement` insists on a positive count.
abbrev decrement : ℕ → Run ℕ
decrement zero = aborts
decrement (suc n) = returns n

-- `memory` says whether the finish event can be allocated.
unfoldable pub barrier_decrement : Bool → World → Run World
barrier_decrement memory w = do
  cnt ← decrement w.ctx.task_cnt
  let w' = record w { ctx = record w.ctx { task_cnt = cnt } }
  returns (
      if cnt == 0
      then (if memory then record w' { queues = send w.queues w.inst_task finishev } else w')
      else w')

abbrev pub state_after : SyncState → Run SyncState
state_after sync_configbarrier = returns sync_datainit
state_after sync_databarrier = returns sync_finished
state_after _ = aborts

-- `activate_zones`, which `finish` calls in the last state, is not part of this world.
unfoldable pub finish : World → Run World
unfolding sync_state_change
finish w = do
  new_state ← state_after w.ctx.state
  ctx ← sync_state_change w.ctx new_state
  returns (record w { ctx = ctx })

unfoldable pub handle : Bool → Event → World → Run World
unfolding barrier_decrement finish
handle memory (update k) w = returns (record w { processed = k ∷ w.processed })
handle memory barrierev w = barrier_decrement memory w
handle memory finishev w = finish w

abbrev take_event : Bool → World → ℕ → Option (List Event) → Run World
take_event memory w t none = returns w
take_event memory w t (some []) = returns w
take_event memory w t (some (e ∷ q)) = handle memory e (record w { queues = set w.queues t q })

-- Task `t` takes the next event of its queue, if there is one.
unfoldable pub run_task : Bool → ℕ → World → Run World
unfolding handle
run_task memory t w = take_event memory w t (get_elem? w.queues t)

-- What happens while `sync_barrier_wait` waits: a task runs, or a new change is queued.
pub data Act : Type 0 where
  runs : ℕ → Act
  posts : ℕ → ℕ → Act

unfoldable pub act : Bool → Act → World → Run World
unfolding run_task
act memory (runs t) w = run_task memory t w
act memory (posts t k) w = returns (record w { queues = send w.queues t (update k) })

unfoldable pub act_all : Bool → List Act → World → Run World
act_all memory [] w = returns w
act_all memory (a ∷ as') w = act memory a w >>= act_all memory as'
