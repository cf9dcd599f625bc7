-- ===== src/Sync/Tests.antt =====
-- Runs of src/syncrepl.c, and the theorems about it at concrete arguments.
use bind_dyndb_ldap_pagure_i.Prelude.{
  ℕ, zero, suc, ◌+◌, ◌-◌, ◌^◌, ◌≡◌, refl, ◌≢◌, ◌↔◌, inl, inr, Bool, true, false, some, List, [],
  ◌∷◌, arith, get_elem?, ◌==◌,
}
use bind_dyndb_ldap_pagure_i.Isc.{success, returns, aborts}
use bind_dyndb_ldap_pagure_i.Sync.{
  sync_configinit, sync_configbarrier, sync_datainit, sync_finished, SyncCtx, sync_state_change,
  sync_state_reset, next_seqid, await_event, sync_event_send,
}
use bind_dyndb_ldap_pagure_i.Sync.States.{
  Next, Call, change, reset, call, call_all, since_reset, sync_state_change_iff, rank-call_all,
  finished_is_final,
}
use bind_dyndb_ldap_pagure_i.Sync.Sequence.{next_seqid_ne_iff, Seen, sync_event_send_success}
use bind_dyndb_ldap_pagure_i.Sync.World.{
  Event, update, barrierev, World, send, send_barriers, sync_barrier_start, barrier_decrement,
  finish, handle, run_task, Act, runs, posts, act, act_all,
}
use bind_dyndb_ldap_pagure_i.Sync.World.Queues.{total}
use bind_dyndb_ldap_pagure_i.Sync.World.Wait.{Elem, Ready}
use bind_dyndb_ldap_pagure_i.Sync.World.Progress.{changes, occurrences, barrier_processes_every}
use bind_dyndb_ldap_pagure_i.Sync.World.Liveness.{AllRuns, barrier_ends}

abbrev ctx : SyncCtx
ctx = record { state = sync_configinit; tasks = 0 ∷ 1 ∷ []; task_cnt = 2; next_id = 0; last_id = 0 }

sync_state_change_iff_example :
    (sync_state_change ctx sync_configbarrier ≡ returns (record ctx { state = sync_configbarrier }))
    ↔ (Next sync_configinit sync_configbarrier
        × (record ctx { state = sync_configbarrier } ≡ record ctx { state = sync_configbarrier }))
sync_state_change_iff_example =
    sync_state_change_iff ctx (record ctx { state = sync_configbarrier }) sync_configbarrier

abbrev calls : List Call
calls = change sync_configbarrier ∷ reset ∷ change sync_configbarrier ∷ change sync_datainit ∷ []

run_calls : call_all ctx calls ≡ returns (record ctx { state = sync_datainit })
unfolding call_all call sync_state_change sync_state_reset
run_calls = refl

rank-call_all_example : 2 ≡ since_reset 0 calls
rank-call_all_example = rank-call_all ctx (record ctx { state = sync_datainit }) calls run_calls

finished_is_final_example : call (record ctx { state = sync_finished }) reset ≡ aborts
finished_is_final_example = finished_is_final (record ctx { state = sync_finished }) reset refl

next_seqid_ne_iff_example :
    (((next_seqid ctx).1 ≢ (next_seqid (next_seqid ctx).0).1) ↔ (0 ≢ 2 ^ 32 - 2))
    × ((((next_seqid ctx).1 ≡ 0) × ((next_seqid (next_seqid ctx).0).1 ≡ 0)) ↔ (0 ≡ 2 ^ 32 - 2))
next_seqid_ne_iff_example = next_seqid_ne_iff ctx (omega arith)

abbrev looks : List (ℕ × Bool)
looks = (0, false) ∷ (1, false) ∷ []

looks_run : (sync_event_send ctx true looks).2 ≡ returns success
unfolding sync_event_send next_seqid await_event
looks_run = refl

sync_event_send_success_example : Seen (sync_event_send ctx true looks).1 looks
sync_event_send_success_example = sync_event_send_success ctx looks looks_run

-- Two tasks, the second with a change in its queue, and the instance's task is the first.
abbrev world : World
world = record { ctx = ctx; inst_task = 0; queues = [] ∷ (update 5 ∷ []) ∷ []; processed = [] }

abbrev started : World
started = record {
  ctx = record ctx { state = sync_configbarrier; tasks = [] };
  inst_task = 0;
  queues = (barrierev ∷ []) ∷ (update 5 ∷ barrierev ∷ []) ∷ [];
  processed = [];
}

abbrev memory : ℕ → Bool
memory n = true

start_run : sync_barrier_start memory world ≡ returns (success, sync_datainit, started)
unfolding sync_barrier_start send_barriers send sync_state_change
start_run = refl

listed :
    (t : ℕ) (e : Event) (q : List Event)
    → get_elem? world.queues t ≡ some (e ∷ q)
    → Elem t ctx.tasks
listed zero e q h = inl refl
listed (suc zero) e q h = inr (inl refl)
listed (suc (suc t)) e q h = cc

world-Ready : Ready world
world-Ready = record {
  idle_barriers = refl;
  idle_finishes = refl;
  counted = refl;
  tasks_in_range = (omega arith, (omega arith, tt));
  inst_in_range = omega arith;
  listed = listed;
}

-- A change 6 comes to the second task while the barrier is under way.
abbrev acts : List Act
acts = runs 0 ∷ posts 1 6 ∷ runs 1 ∷ runs 1 ∷ runs 0 ∷ []

abbrev ended : World
ended = record {
  ctx = record ctx { state = sync_datainit; tasks = []; task_cnt = 0 };
  inst_task = 0;
  queues = [] ∷ (update 6 ∷ []) ∷ [];
  processed = 5 ∷ [];
}

acts_run : act_all true acts started ≡ returns ended
unfolding act_all act run_task handle barrier_decrement finish send sync_state_change
acts_run = refl

barrier_processes_every_example : occurrences 5 (5 ∷ []) ≡ 0 + total (changes 5) world.queues
barrier_processes_every_example =
    barrier_processes_every memory true world started sync_datainit world-Ready start_run
      (λ k. k == 5) acts ended 5 (tt, (refl, (tt, (tt, (tt, tt))))) refl acts_run refl

barrier_ends_example :
    (w2 : World) × (act_all true acts started ≡ returns w2)
    × ((l' : List Act) × (w3 : World) × AllRuns l'
        × (act_all true l' w2 ≡ returns w3)
        × (w3.ctx.state ≡ sync_datainit))
barrier_ends_example = barrier_ends memory world started sync_datainit acts world-Ready start_run
