-- ===== src/Sync/World/Barrier.antt =====
-- The barrier's invariant, through every step of the tasks while `sync_barrier_wait` waits.
use bind_dyndb_ldap_pagure_i.Prelude.{
  ℕ, zero, suc, ◌<◌, ◌≡◌, refl, ◌∙◌, Bool, true, false, ◌⊎◌, Option, none, some, List, [], ◌∷◌,
  arith, set, get_elem?, length, All,
}
use bind_dyndb_ldap_pagure_i.Isc.{Run, returns}
use bind_dyndb_ldap_pagure_i.Sync.{
  SyncState, sync_configbarrier, sync_datainit, sync_databarrier, sync_finished, sync_state_change,
}
use bind_dyndb_ldap_pagure_i.Sync.World.{
  Event, update, barrierev, finishev, World, send, barrier_decrement, finish, handle, run_task, Act,
  runs, posts, act, act_all,
}
use bind_dyndb_ldap_pagure_i.Sync.World.Queues.{
  Queue, barriers, finishes, total, total-set, total-ge, barriers-send, finishes-send,
  barriers-send_update, finishes-send_update, length-send, length-set,
}
use bind_dyndb_ldap_pagure_i.Sync.World.Guarded.{Guarded, IsNew, Guarded-send, Guarded-take}

-- The state in which a barrier waits, and the state that ends the wait.
abbrev pub Phases : SyncState → SyncState → Type 0
Phases b f =
    ((b ≡ sync_configbarrier) × (f ≡ sync_datainit))
    ⊎ ((b ≡ sync_databarrier) × (f ≡ sync_finished))

module _ (old : ℕ → Bool) (memory : Bool) (b f : SyncState) where
  -- The count of the context is the number of barrier events in the queues. The finish event is
  -- sent when it falls to zero, and its handler changes the state.
  pub record Inv (w : World) : Type 0 where
    pub guarded : All (Guarded old) w.queues
    pub counted : total barriers w.queues ≡ w.ctx.task_cnt
    pub in_range : w.inst_task < length w.queues
    pub phase :
        ((w.ctx.state ≡ b)
          × (((total finishes w.queues ≡ 0) × (memory ≡ true → 0 < w.ctx.task_cnt))
              ⊎ ((w.ctx.task_cnt ≡ 0) × (total finishes w.queues ≡ 1))))
        ⊎ ((w.ctx.state ≡ f) × (w.ctx.task_cnt ≡ 0) × (total finishes w.queues ≡ 0))

  abbrev pub Steps : World → Run World → Type 0
  Steps w m = (w' : World) × (m ≡ returns w') × Inv w'

  take-update :
      (w : World) (t k : ℕ) (q : Queue)
      → get_elem? w.queues t ≡ some (update k ∷ q)
      → Inv w
      → Inv (record w { queues = set w.queues t q; processed = k ∷ w.processed })
  take-update w t k q h v =
      let nb = total-set barriers w.queues t (update k ∷ q) q h in
      let nf = total-set finishes w.queues t (update k ∷ q) q h in
      let eb : total barriers (set w.queues t q) ≡ total barriers w.queues = omega (arith, nb) in
      let ef : total finishes (set w.queues t q) ≡ total finishes w.queues = omega (arith, nf) in
      record {
        guarded = Guarded-take old w.queues t (update k) q h v.guarded;
        counted = eb ∙ v.counted;
        in_range = omega (arith, length-set w.queues t q, v.in_range);
        phase = rw ef v.phase;
      }

  take-barrier :
      (w : World) (t : ℕ) (q : Queue)
      → get_elem? w.queues t ≡ some (barrierev ∷ q)
      → Inv w
      → Steps w (barrier_decrement memory (record w { queues = set w.queues t q }))
  unfolding barrier_decrement
  take-barrier w t q h v = go w.ctx.task_cnt memory refl refl
    where
      qs : List Queue
      qs = set w.queues t q

      nb : suc (total barriers qs) ≡ w.ctx.task_cnt
      nb = omega (arith, total-set barriers w.queues t (barrierev ∷ q) q h, v.counted)

      nf : total finishes qs ≡ total finishes w.queues
      nf = omega (arith, total-set finishes w.queues t (barrierev ∷ q) q h)

      guarded : All (Guarded old) qs
      guarded = Guarded-take old w.queues t barrierev q h v.guarded

      in_range : w.inst_task < length qs
      in_range = omega (arith, length-set w.queues t q, v.in_range)

      go :
          (n : ℕ) (m : Bool)
          → w.ctx.task_cnt ≡ n
          → memory ≡ m
          → Steps w (barrier_decrement memory (record w { queues = qs }))
      go zero m e em = absurd (omega (arith, nb))
      go (suc zero) true e em = (
        record w { ctx = record w.ctx { task_cnt = 0 }; queues = send qs w.inst_task finishev },
        ground (arith, e, em),
        record {
          guarded = Guarded-send old qs w.inst_task finishev tt guarded;
          counted = omega (arith, barriers-send finishev qs w.inst_task in_range, nb);
          in_range = omega (arith, length-send qs w.inst_task finishev, in_range);
          phase =
              ground (arith, v.phase, e, nf, nb, finishes-send finishev qs w.inst_task in_range);
        },
      )
      go (suc zero) false e em = (
        record w { ctx = record w.ctx { task_cnt = 0 }; queues = qs },
        ground (arith, e, em),
        record {
          guarded = guarded;
          counted = omega (arith, nb);
          in_range = in_range;
          phase = ground (arith, v.phase, e, nf, nb, em);
        },
      )
      go (suc (suc n)) m e em = (
        record w { ctx = record w.ctx { task_cnt = suc n }; queues = qs },
        ground (arith, e),
        record {
          guarded = guarded;
          counted = omega (arith, nb);
          in_range = in_range;
          phase = ground (arith, v.phase, e, nf, nb);
        },
      )

  module _ (phases : Phases b f) where
    take-finish :
        (w : World) (t : ℕ) (q : Queue)
        → get_elem? w.queues t ≡ some (finishev ∷ q)
        → Inv w
        → Steps w (finish (record w { queues = set w.queues t q }))
    unfolding finish sync_state_change
    take-finish w t q h v =
        let nb = total-set barriers w.queues t (finishev ∷ q) q h in
        let nf = total-set finishes w.queues t (finishev ∷ q) q h in
        let one = total-ge finishes w.queues t (finishev ∷ q) h in
        (
          record w { ctx = record w.ctx { state = f }; queues = set w.queues t q },
          ground (arith, v.phase, phases, one),
          record {
            guarded = Guarded-take old w.queues t finishev q h v.guarded;
            counted = omega (arith, nb, v.counted);
            in_range = omega (arith, length-set w.queues t q, v.in_range);
            phase = ground (arith, v.phase, nf, one);
          },
        )

    take-event :
        (w : World) (t : ℕ) (e : Event) (q : Queue)
        → get_elem? w.queues t ≡ some (e ∷ q)
        → Inv w
        → Steps w (handle memory e (record w { queues = set w.queues t q }))
    unfolding handle
    take-event w t (update k) q h v = (_, refl, take-update w t k q h v)
    take-event w t barrierev q h v = take-barrier w t q h v
    take-event w t finishev q h v = take-finish w t q h v

    run_task-Inv : (w : World) (t : ℕ) → Inv w → Steps w (run_task memory t w)
    unfolding run_task
    run_task-Inv w t v = go (get_elem? w.queues t) refl
      where
        go : (o : Option Queue) → get_elem? w.queues t ≡ o → Steps w (run_task memory t w)
        go none e = (w, rw (e, run_task), v)
        go (some []) e = (w, rw (e, run_task), v)
        go (some (x ∷ q)) e =
            let (w', r, v') = take-event w t x q e v in (w', rw (e, run_task) r, v')

    post-Inv :
        (w : World) (t k : ℕ)
        → old k ≡ false
        → Inv w
        → Inv (record w { queues = send w.queues t (update k) })
    post-Inv w t k n v =
        let eb = barriers-send_update k w.queues t in
        let ef = finishes-send_update k w.queues t in
        record {
          guarded = Guarded-send old w.queues t (update k) n v.guarded;
          counted = eb ∙ v.counted;
          in_range = omega (arith, length-send w.queues t (update k), v.in_range);
          phase = rw ef v.phase;
        }

    -- While the barrier waits, every step of a task and every new change keeps the invariant.
    pub act-Inv : (w : World) (a : Act) → IsNew old a → Inv w → Steps w (act memory a w)
    unfolding act
    act-Inv w (runs t) n v = run_task-Inv w t v
    act-Inv w (posts t k) n v = (_, refl, post-Inv w t k n v)

    pub act_all-Inv :
        (w : World) (l : List Act) → All (IsNew old) l → Inv w → Steps w (act_all memory l w)
    unfolding act_all
    act_all-Inv w [] n v = (w, refl, v)
    act_all-Inv w (a ∷ l) n v =
        let (w', r, v') = act-Inv w a n.0 v in
        let (w'', r', v'') = act_all-Inv w' l n.1 v' in (w'', rw r r', v'')
