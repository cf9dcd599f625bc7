-- ===== src/Sync.antt =====
-- src/syncrepl.c and src/syncrepl.h: the synchronisation context. Each function runs under the
-- context's mutex, so a call is one step from context to context.
pub mod States
pub mod World
mod Tests
pub mod Sequence
use bind_dyndb_ldap_pagure_i.Prelude.{
  ℕ, ◌+◌, ◌-◌, ◌%◌, ◌^◌, Bool, true, false, ◌||◌, List, [], ◌∷◌, ◌++◌, ◌==◌, if◌then◌else◌,
}
use bind_dyndb_ldap_pagure_i.Isc.{
  IscResult, success, nomemory, shuttingdown, Run, returns, aborts, blocks, ◌>>=◌, ◌>>◌, require,
}

pub data SyncState : Type 0 where
  sync_configinit sync_configbarrier sync_datainit sync_databarrier sync_finished : SyncState

-- `tasks` is the list of tasks in the order of `ISC_LIST_APPEND`; a task is a number.
pub record SyncCtx : Type 0 where
  pub state : SyncState
  pub tasks : List ℕ
  pub task_cnt : ℕ
  pub next_id : ℕ
  pub last_id : ℕ

abbrev is_configbarrier : SyncState → Bool
is_configbarrier sync_configbarrier = true
is_configbarrier _ = false

abbrev is_datainit : SyncState → Bool
is_datainit sync_datainit = true
is_datainit _ = false

abbrev is_databarrier : SyncState → Bool
is_databarrier sync_databarrier = true
is_databarrier _ = false

abbrev is_finished : SyncState → Bool
is_finished sync_finished = true
is_finished _ = false

-- The switch of `sync_state_change`.
abbrev check_change : SyncState → SyncState → Run (Unit {0})
check_change sync_configinit new = require (is_configbarrier new)
check_change sync_configbarrier new = require (is_datainit new)
check_change sync_datainit new = require (is_databarrier new)
check_change sync_databarrier new = require (is_finished new)
check_change sync_finished new = aborts

unfoldable pub sync_state_get : SyncCtx → SyncState
sync_state_get ctx = ctx.state

unfoldable pub sync_state_change : SyncCtx → SyncState → Run SyncCtx
sync_state_change ctx new_state = do
  check_change ctx.state new_state
  returns (record ctx { state = new_state })

abbrev check_reset : SyncState → Run (Unit {0})
check_reset sync_finished = aborts
check_reset _ = returns tt

unfoldable pub sync_state_reset : SyncCtx → Run SyncCtx
sync_state_reset ctx = do check_reset ctx.state; returns (record ctx { state = sync_configinit })

abbrev pub is_init : SyncState → Bool
is_init sync_configinit = true
is_init sync_datainit = true
is_init _ = false

-- `memory` says whether the list element can be allocated.
unfoldable pub sync_task_add : Bool → SyncCtx → ℕ → Run (IscResult × SyncCtx)
sync_task_add false ctx task = returns (nomemory, ctx)
sync_task_add true ctx task = do
  require (is_init ctx.state)
  returns (success, record ctx { tasks = ctx.tasks ++ task ∷ []; task_cnt = ctx.task_cnt + 1 })

-- The context after `sync_ctx_init` with the task of the LDAP instance, when nothing fails.
unfoldable pub sync_ctx_init : Bool → ℕ → Run (IscResult × SyncCtx)
unfolding sync_task_add
sync_ctx_init memory inst_task =
    sync_task_add memory
      (record { state = sync_configinit; tasks = []; task_cnt = 0; next_id = 0; last_id = 0 })
      inst_task

-- `++sctx->next_id % 0xffffffff` on a 32-bit counter.
unfoldable pub next_seqid : SyncCtx → SyncCtx × ℕ
next_seqid ctx =
    let next = (ctx.next_id + 1) % 2 ^ 32 in (record ctx { next_id = next }, next % 0xffffffff)

-- The loop of `sync_event_send` of a synchronous event. Each look at the loop's condition sees
-- what other threads have made of `last_id` and of the `exiting` flag by then; a wait that no
-- later look ends goes on.
unfoldable pub await_event : ℕ → List (ℕ × Bool) → Run IscResult
await_event seqid [] = blocks
await_event seqid ((last_id, exiting) ∷ later) =
    let again = await_event seqid later in
    if last_id == seqid then returns success else if exiting then returns shuttingdown else again

unfoldable pub sync_event_send : SyncCtx → Bool → List (ℕ × Bool) → SyncCtx × ℕ × Run IscResult
unfolding next_seqid await_event
sync_event_send ctx synchronous looks =
    let (ctx', seqid) = next_seqid ctx in
    (ctx', seqid, if synchronous then await_event seqid looks else returns success)

unfoldable pub sync_event_signal : SyncCtx → ℕ → SyncCtx
sync_event_signal ctx seqid = record ctx { last_id = seqid }
