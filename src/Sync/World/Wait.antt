-- ===== src/Sync/World/Wait.antt =====
-- The state of the tasks before `sync_barrier_wait` of src/syncrepl.c and after it has sent its
-- barrier events.
use bind_dyndb_ldap_pagure_i.Prelude.{
  ℕ, zero, suc, ◌+◌, ◌<◌, ◌≡◌, ◌≢◌, refl, sym, subst, ℕ_discrete, Bool, true, ◌⊎◌, inl, inr, some,
  List, [], ◌∷◌, ◌++◌, arith, get_elem?, length, All,
}
use bind_dyndb_ldap_pagure_i.Isc.{success, returns}
use bind_dyndb_ldap_pagure_i.Sync.{SyncState, sync_state_change}
use bind_dyndb_ldap_pagure_i.Sync.World.{Event, barrierev, World, send}
use bind_dyndb_ldap_pagure_i.Sync.World.Queues.{
  Queue, barriers, finishes, total, barriers-send, finishes-send, length-send,
}
use bind_dyndb_ldap_pagure_i.Sync.World.Guarded.{Guarded}
use bind_dyndb_ldap_pagure_i.Sync.World.{send_barriers, sync_barrier_start, not_empty}
use bind_dyndb_ldap_pagure_i.Sync.World.Guarded.{Guarded-barrier}
use bind_dyndb_ldap_pagure_i.Sync.World.Barrier.{Phases, Inv}

abbrev pub Elem : ℕ → List ℕ → Type 0
Elem t [] = ⊥
Elem t (x ∷ l) = (t ≡ x) ⊎ Elem t l

abbrev pub Idle : Queue → Type 0
Idle q = (barriers q ≡ 0) × (finishes q ≡ 0)

-- What holds before the call: no barrier is under way, the count is that of the list, which has
-- only tasks that there are, and every task with something in its queue is on the list.
pub record Ready (w : World) : Type 0 where
  pub idle_barriers : total barriers w.queues ≡ 0
  pub idle_finishes : total finishes w.queues ≡ 0
  pub counted : w.ctx.task_cnt ≡ length w.ctx.tasks
  pub tasks_in_range : All (λ t. t < length w.queues) w.ctx.tasks
  pub inst_in_range : w.inst_task < length w.queues
  pub listed :
      (t : ℕ) (e : Event) (q : Queue) → get_elem? w.queues t ≡ some (e ∷ q) → Elem t w.ctx.tasks

module _ (old : ℕ → Bool) (sendable : ℕ → Bool) where
  -- Each queue is guarded, or its task is still to be sent its barrier event.
  Covered : List ℕ → List Queue → Type 0
  Covered tasks qs = (t : ℕ) (q : Queue) → get_elem? qs t ≡ some q → Guarded old q ⊎ Elem t tasks

  get_elem?-send_self :
      (qs : List Queue) (t : ℕ) (e : Event) (q : Queue)
      → get_elem? (send qs t e) t ≡ some q
      → (p : Queue) × (q ≡ p ++ e ∷ [])
  unfolding send
  get_elem?-send_self [] t e q h = cc
  get_elem?-send_self (x ∷ qs) zero e q h = (x, ground arith)
  get_elem?-send_self (x ∷ qs) (suc t) e q h = get_elem?-send_self qs t e q h

  get_elem?-send_ne :
      (qs : List Queue) (t u : ℕ) (e : Event) → u ≢ t → get_elem? (send qs t e) u ≡ get_elem? qs u
  unfolding send
  get_elem?-send_ne [] t u e d = refl
  get_elem?-send_ne (x ∷ qs) zero zero e d = absurd (d refl)
  get_elem?-send_ne (x ∷ qs) zero (suc u) e d = refl
  get_elem?-send_ne (x ∷ qs) (suc t) zero e d = refl
  get_elem?-send_ne (x ∷ qs) (suc t) (suc u) e d = get_elem?-send_ne qs t u e (omega arith)

  Covered-send :
      (t : ℕ) (tasks : List ℕ) (qs : List Queue)
      → Covered (t ∷ tasks) qs
      → Covered tasks (send qs t barrierev)
  unfolding Covered
  Covered-send t tasks qs c u q h = elim (ℕ_discrete u t) [
    | yes e ↦
        let (p, eq) =
          get_elem?-send_self qs u barrierev q
            (subst (λ k. get_elem? (send qs k barrierev) u ≡ some q) (sym e) h) in
        inl (rw eq (Guarded-barrier old p))
    | no d ↦ elim (c u q (rw (get_elem?-send_ne qs t u barrierev d) at h)) [
      | inl g ↦ inl g
      | inr (inl e) ↦ absurd (d e)
      | inr (inr m) ↦ inr m
    ]
  ]

  Covered-All : (qs : List Queue) → Covered [] qs → All (Guarded old) qs
  unfolding Covered
  Covered-All [] c = tt
  Covered-All (q ∷ qs) c = (
    elim (c zero q refl) [ inl g ↦ g | inr m ↦ absurd m ],
    Covered-All qs (λ t p h. c (suc t) p h),
  )

  record Sent (tasks : List ℕ) (qs : List Queue) (left : List ℕ) (qs' : List Queue) : Type 0 where
    none_left : left ≡ []
    sent : total barriers qs' ≡ total barriers qs + length tasks
    same_finishes : total finishes qs' ≡ total finishes qs
    same_length : length qs' ≡ length qs
    guarded : All (Guarded old) qs'

  in_range-send :
      (t : ℕ) (e : Event) (qs : List Queue) (l : List ℕ)
      → All (λ u. u < length qs) l
      → All (λ u. u < length (send qs t e)) l
  in_range-send t e qs l h = rw (length-send qs t e) h

  send_barriers-Sent :
      (tasks left : List ℕ) (qs qs' : List Queue)
      → All (λ t. t < length qs) tasks
      → Covered tasks qs
      → send_barriers sendable tasks qs ≡ (success, left, qs')
      → Sent tasks qs left qs'
  unfolding send_barriers
  send_barriers-Sent [] left qs qs' range c h =
      let el : left ≡ [] = ground (arith, h) in
      let eq : qs' ≡ qs = ground (arith, h) in
      rw (el, eq)
        (record {
          none_left = refl;
          sent = omega arith;
          same_finishes = refl;
          same_length = refl;
          guarded = Covered-All qs c;
        })
  send_barriers-Sent (t ∷ tasks) left qs qs' range c h =
      let next : Sent tasks (send qs t barrierev) left qs' =
        send_barriers-Sent tasks left (send qs t barrierev) qs'
          (in_range-send t barrierev qs tasks range.1) (Covered-send t tasks qs c)
          (ground (arith, h)) in
      record {
        none_left = next.none_left;
        sent = omega (arith, next.sent, barriers-send barrierev qs t range.0);
        same_finishes = omega (arith, next.same_finishes, finishes-send barrierev qs t range.0);
        same_length = omega (arith, next.same_length, length-send qs t barrierev);
        guarded = next.guarded;
      }

  Covered-Ready : (w : World) → Ready w → Covered w.ctx.tasks w.queues
  unfolding Covered
  Covered-Ready w v t [] h = inl tt
  Covered-Ready w v t (e ∷ q) h = inr (v.listed t e q h)

module _ (sendable : ℕ → Bool) (w w1 : World) (final : SyncState) where
  pub record Started : Type 0 where
    pub phases : Phases w1.ctx.state final
    pub same_count : w1.ctx.task_cnt ≡ w.ctx.task_cnt
    pub same_inst : w1.inst_task ≡ w.inst_task
    pub same_processed : w1.processed ≡ w.processed
    pub some_task : 0 < length w.ctx.tasks
    pub sending : send_barriers sendable w.ctx.tasks w.queues ≡ (success, w1.ctx.tasks, w1.queues)

  length-pos : (l : List ℕ) → not_empty l ≡ true → 0 < length l
  length-pos [] h = cc
  length-pos (x ∷ l) h = omega arith

  pub start-Started : sync_barrier_start sendable w ≡ returns (success, final, w1) → Started
  unfolding sync_barrier_start sync_state_change
  start-Started h = record {
    phases = ground (arith, h);
    same_count = ground (arith, h);
    same_inst = ground (arith, h);
    same_processed = ground (arith, h);
    some_task = length-pos w.ctx.tasks (ground (arith, h));
    sending = ground (arith, h);
  }

  -- A start that has sent all barrier events leaves a world in which the invariant holds.
  pub start-Inv :
      (old : ℕ → Bool) (memory : Bool)
      → Ready w
      → sync_barrier_start sendable w ≡ returns (success, final, w1)
      → Inv old memory w1.ctx.state final w1
  start-Inv old memory v h =
      let started = start-Started h in
      let sent : Sent old sendable w.ctx.tasks w.queues w1.ctx.tasks w1.queues =
        send_barriers-Sent old sendable w.ctx.tasks w1.ctx.tasks w.queues w1.queues v.tasks_in_range
          (Covered-Ready old sendable w v) started.sending in
      record {
        guarded = sent.guarded;
        counted = omega (arith, sent.sent, started.same_count, v.counted, v.idle_barriers);
        in_range = omega (arith, sent.same_length, started.same_inst, v.inst_in_range);
        phase = inl (
          refl,
          inl (
            omega (arith, sent.same_finishes, v.idle_finishes),
            λ m. omega (arith, started.some_task, started.same_count, v.counted),
          ),
        );
      }
