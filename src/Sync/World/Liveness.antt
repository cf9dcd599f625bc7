-- ===== src/Sync/World/Liveness.antt =====
-- How the wait of `sync_barrier_wait` in src/syncrepl.c can end.
use bind_dyndb_ldap_pagure_i.Prelude.{
  ℕ, zero, suc, ◌<◌, ◌≡◌, ◌≢◌, refl, Bool, true, false, some, List, [], ◌∷◌, arith, set, get_elem?,
  length, All,
}
use bind_dyndb_ldap_pagure_i.Isc.{success, returns}
use bind_dyndb_ldap_pagure_i.Sync.{SyncState, sync_state_change}
use bind_dyndb_ldap_pagure_i.Sync.World.{
  Event, update, barrierev, finishev, World, barrier_decrement, finish, handle, run_task, Act, runs,
  posts, act, act_all,
}
use bind_dyndb_ldap_pagure_i.Sync.World.Queues.{
  Queue, barriers, finishes, total, total-set, length-set,
}
use bind_dyndb_ldap_pagure_i.Sync.World.{sync_barrier_start}
use bind_dyndb_ldap_pagure_i.Sync.World.Guarded.{IsNew}
use bind_dyndb_ldap_pagure_i.Sync.World.Queues.{work, work-send, busy_task}
use bind_dyndb_ldap_pagure_i.Sync.World.Barrier.{Phases, Inv, act_all-Inv, act-Inv}
use bind_dyndb_ldap_pagure_i.Sync.World.Wait.{Ready, start-Inv, start-Started}

handle-work :
    (memory : Bool) (e : Event) (w w' : World) (t : ℕ) (q : Queue)
    → get_elem? w.queues t ≡ some (e ∷ q)
    → w.inst_task < length w.queues
    → handle memory e (record w { queues = set w.queues t q }) ≡ returns w'
    → total work w'.queues < total work w.queues
unfolding handle barrier_decrement finish sync_state_change
handle-work memory (update j) w w' t q h i r =
    ground (arith, r, total-set work w.queues t (update j ∷ q) q h)
handle-work memory barrierev w w' t q h i r =
    let there : w.inst_task < length (set w.queues t q) = omega (arith, length-set w.queues t q) in
    ground (
      arith,
      r,
      total-set work w.queues t (barrierev ∷ q) q h,
      work-send finishev (set w.queues t q) w.inst_task there,
    )
handle-work memory finishev w w' t q h i r =
    ground (arith, r, total-set work w.queues t (finishev ∷ q) q h)

run_task-work :
    (memory : Bool) (e : Event) (w w' : World) (t : ℕ) (q : Queue)
    → get_elem? w.queues t ≡ some (e ∷ q)
    → w.inst_task < length w.queues
    → run_task memory t w ≡ returns w'
    → total work w'.queues < total work w.queues
unfolding run_task
run_task-work memory e w w' t q h i r = handle-work memory e w w' t q h i (ground (arith, r, h))

abbrev IsRun : Act → Type 0
IsRun (runs t) = Unit
IsRun (posts t k) = ⊥

abbrev pub AllRuns : List Act → Type 0
AllRuns = All IsRun

module _ (b f : SyncState) (phases : Phases b f) where
  abbrev Live : World → Type 0
  Live = Inv (λ k. false) true b f

  abbrev Ends : World → Type 0
  Ends w =
      (l : List Act) × (w' : World) × AllRuns l
      × (act_all true l w ≡ returns w')
      × (w'.ctx.state ≡ f)

  -- In a state that waits, some queue holds a barrier or a finish event.
  next_task :
      (w : World)
      → Live w
      → w.ctx.state ≢ f
      → (t : ℕ) × (e : Event) × (q : Queue) × (get_elem? w.queues t ≡ some (e ∷ q))
  next_task w v n = go (total barriers w.queues) refl
    where
      go :
          (c : ℕ)
          → total barriers w.queues ≡ c
          → (t : ℕ) × (e : Event) × (q : Queue) × (get_elem? w.queues t ≡ some (e ∷ q))
      go (suc c) e = busy_task barriers w.queues refl (omega arith)
      go zero e = busy_task finishes w.queues refl (ground (arith, v.phase, v.counted, e, n))

  state_discrete : Discrete SyncState
  state_discrete = hlevel

  ends : (n : ℕ) (w : World) → total work w.queues < n → Live w → Ends w
  unfolding act_all act
  ends zero w h v = absurd (omega arith)
  ends (suc n) w h v = elim (state_discrete w.ctx.state f) [
    | yes e ↦ ([], w, tt, refl, e)
    | no d ↦
        let (t, e, q, g) = next_task w v d in
        let (w', r, v') = act-Inv (λ k. false) true b f phases w (runs t) tt v in
        let (l, w'', rs, r', done) =
          ends n w' (omega (arith, run_task-work true e w w' t q g v.in_range r)) v' in
        (runs t ∷ l, w'', (tt, rs), rw r r', done)
  ]

-- Let `sync_barrier_wait` have sent all its barrier events. Then no handler fails whatever the
-- tasks do and whatever changes are queued, as long as the finish event can be allocated, and at
-- every moment there is an order of running the tasks that brings the final state about.
pub barrier_ends :
    (sendable : ℕ → Bool) (w w1 : World) (final : SyncState) (l : List Act)
    → Ready w
    → sync_barrier_start sendable w ≡ returns (success, final, w1)
    → (w2 : World) × (act_all true l w1 ≡ returns w2)
      × ((l' : List Act) × (w3 : World) × AllRuns l'
          × (act_all true l' w2 ≡ returns w3)
          × (w3.ctx.state ≡ final))
barrier_ends sendable w w1 final l ready start =
    let started = start-Started sendable w w1 final start in
    let (w2, r, v) =
      act_all-Inv (λ k. false) true w1.ctx.state final started.phases w1 l (all_new l)
        (start-Inv sendable w w1 final (λ k. false) true ready start) in
    (w2, r, ends w1.ctx.state final started.phases (suc (total work w2.queues)) w2 (omega arith) v)
  where
    all_new : (l : List Act) → All (IsNew (λ k. false)) l
    all_new [] = tt
    all_new (runs t ∷ l) = (tt, all_new l)
    all_new (posts t k ∷ l) = (refl, all_new l)
