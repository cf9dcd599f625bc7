-- ===== src/Sync/World/Progress.antt =====
-- The changes of src/syncrepl.c that are queued and processed while the barrier waits.
use bind_dyndb_ldap_pagure_i.Prelude.{
  ℕ, ◌+◌, ◌≡◌, refl, subst, ℕ_discrete, ◌∙◌, ap, Bool, true, inl, inr, Option, none, some, List, [],
  ◌∷◌, ◌++◌, arith, set, get_elem?, All, ◌==◌, if◌then◌else◌,
}
use bind_dyndb_ldap_pagure_i.Isc.{success, returns, Run-cases}
use bind_dyndb_ldap_pagure_i.Sync.{SyncState, sync_state_change}
use bind_dyndb_ldap_pagure_i.Sync.World.{
  Event, update, barrierev, finishev, World, send, barrier_decrement, finish, handle, run_task, Act,
  runs, posts, act, act_all,
}
use bind_dyndb_ldap_pagure_i.Sync.World.Queues.{Queue, barriers, total, total-set}
use bind_dyndb_ldap_pagure_i.Sync.World.Guarded.{Guarded}
use bind_dyndb_ldap_pagure_i.Sync.World.{send_barriers, sync_barrier_start}
use bind_dyndb_ldap_pagure_i.Sync.World.Guarded.{IsNew}
use bind_dyndb_ldap_pagure_i.Sync.World.Queues.{total-send_zero}
use bind_dyndb_ldap_pagure_i.Sync.World.Barrier.{Inv, act_all-Inv}
use bind_dyndb_ldap_pagure_i.Sync.World.Wait.{Ready, start-Inv, start-Started}

abbrev pub changes : ℕ → Queue → ℕ
changes k [] = 0
changes k (update j ∷ q) = (if j == k then 1 else 0) + changes k q
changes k (barrierev ∷ q) = changes k q
changes k (finishev ∷ q) = changes k q

abbrev pub occurrences : ℕ → List ℕ → ℕ
occurrences k [] = 0
occurrences k (j ∷ l) = (if j == k then 1 else 0) + occurrences k l

module _ (k : ℕ) where
  changes-append : (q r : Queue) → changes k (q ++ r) ≡ changes k q + changes k r
  changes-append [] r = omega arith
  changes-append (update j ∷ q) r = omega (arith, changes-append q r)
  changes-append (barrierev ∷ q) r = changes-append q r
  changes-append (finishev ∷ q) r = changes-append q r

  -- How often the change stands in the queues and among the processed changes.
  abbrev pub seen : World → ℕ
  seen w = total (changes k) w.queues + occurrences k w.processed

  send-seen :
      (e : Event) (qs : List Queue) (t : ℕ)
      → changes k (e ∷ []) ≡ 0
      → total (changes k) (send qs t e) ≡ total (changes k) qs
  send-seen e qs t h = total-send_zero (changes k) changes-append e qs t h

  handle-seen :
      (memory : Bool) (e : Event) (w w' : World) (t : ℕ) (q : Queue)
      → get_elem? w.queues t ≡ some (e ∷ q)
      → handle memory e (record w { queues = set w.queues t q }) ≡ returns w'
      → seen w' ≡ seen w
  unfolding handle barrier_decrement finish sync_state_change
  handle-seen memory (update j) w w' t q h r =
      let moved = total-set (changes k) w.queues t (update j ∷ q) q h in
      let eq : w' ≡ record w { queues = set w.queues t q; processed = j ∷ w.processed } =
        ground (arith, r) in
      rw eq (omega (arith, moved))
  handle-seen memory barrierev w w' t q h r = ground (
    arith,
    r,
    total-set (changes k) w.queues t (barrierev ∷ q) q h,
    send-seen finishev (set w.queues t q) w.inst_task refl,
  )
  handle-seen memory finishev w w' t q h r =
      ground (arith, r, total-set (changes k) w.queues t (finishev ∷ q) q h)

  act-seen :
      (old : ℕ → Bool) (memory : Bool) (a : Act) (w w' : World)
      → old k ≡ true
      → IsNew old a
      → act memory a w ≡ returns w'
      → seen w' ≡ seen w
  unfolding act run_task
  act-seen old memory (runs t) w w' o n r = go (get_elem? w.queues t) refl
    where
      go : (p : Option Queue) → get_elem? w.queues t ≡ p → seen w' ≡ seen w
      go none e = ground (arith, r, e)
      go (some []) e = ground (arith, r, e)
      go (some (x ∷ q)) e = handle-seen memory x w w' t q e (ground (arith, r, e))
  act-seen old memory (posts t j) w w' o n r =
      let none_new : changes k (update j ∷ []) ≡ 0 = ground (arith, o, n) in
      ground (arith, r, send-seen (update j) w.queues t none_new)

  act_all-seen :
      (old : ℕ → Bool) (memory : Bool) (l : List Act) (w w' : World)
      → old k ≡ true
      → All (IsNew old) l
      → act_all memory l w ≡ returns w'
      → seen w' ≡ seen w
  unfolding act_all
  act_all-seen old memory [] w w' o n r = ground (arith, r)
  act_all-seen old memory (a ∷ l) w w' o n r = elim (Run-cases (act memory a w)) [
    | inl (u, e) ↦
        act_all-seen old memory l u w' o n.1 (ground (arith, r, e))
        ∙ act-seen old memory a w u o n.0 e
    | inr e ↦ ground (arith, r, e)
  ]

  send_barriers-seen :
      (sendable : ℕ → Bool) (tasks left : List ℕ) (qs qs' : List Queue)
      → send_barriers sendable tasks qs ≡ (success, left, qs')
      → total (changes k) qs' ≡ total (changes k) qs
  unfolding send_barriers
  send_barriers-seen sendable [] left qs qs' h = ground (arith, h)
  send_barriers-seen sendable (t ∷ tasks) left qs qs' h =
      send_barriers-seen sendable tasks left (send qs t barrierev) qs' (ground (arith, h))
      ∙ send-seen barrierev qs t refl

-- Without a barrier event there is nothing old in a guarded queue.
Guarded-changes :
    (old : ℕ → Bool) (k : ℕ) (q : Queue)
    → old k ≡ true
    → Guarded old q
    → barriers q ≡ 0
    → changes k q ≡ 0
Guarded-changes old k [] o g z = refl
Guarded-changes old k (update j ∷ q) o g z = elim (ℕ_discrete j k) [
  | yes e ↦ absurd (let lt = g.0 (rw e o) in omega (arith, lt, z))
  | no d ↦ ground (arith, d, Guarded-changes old k q o g.1 z)
]
Guarded-changes old k (barrierev ∷ q) o g z = absurd (omega arith)
Guarded-changes old k (finishev ∷ q) o g z = Guarded-changes old k q o g z

Guarded-total :
    (old : ℕ → Bool) (k : ℕ) (qs : List Queue)
    → old k ≡ true
    → All (Guarded old) qs
    → total barriers qs ≡ 0
    → total (changes k) qs ≡ 0
Guarded-total old k [] o g z = refl
Guarded-total old k (q ∷ qs) o g z =
    omega (
      arith,
      Guarded-changes old k q o g.0 (omega arith),
      Guarded-total old k qs o g.1 (omega arith),
    )

module _ (sendable : ℕ → Bool) (memory : Bool) (w w1 : World) (final : SyncState) (ready : Ready w)
    (start : sync_barrier_start sendable w ≡ returns (success, final, w1)) where
  -- Let `sync_barrier_wait` start in a state where every task with a queued event is on the list,
  -- and let it send all its barrier events. Then, whatever the tasks do and whatever other
  -- changes are queued meanwhile, when its final state is reached, each change that was not
  -- queued meanwhile has been processed as often as it stood in the queues before the call.
  pub barrier_processes_every :
      (old : ℕ → Bool) (l : List Act) (w2 : World) (k : ℕ)
      → All (IsNew old) l
      → old k ≡ true
      → act_all memory l w1 ≡ returns w2
      → w2.ctx.state ≡ final
      → occurrences k w2.processed ≡ occurrences k w.processed + total (changes k) w.queues
  barrier_processes_every old l w2 k new o r e =
      let started = start-Started sendable w w1 final start in
      let (u, ru, v) =
        act_all-Inv old memory w1.ctx.state final started.phases w1 l new
          (start-Inv sendable w w1 final old memory ready start) in
      let same : u ≡ w2 = ground (arith, r, ru) in
      let inv : Inv old memory w1.ctx.state final w2 =
        subst (Inv old memory w1.ctx.state final) same v in
      let done : total barriers w2.queues ≡ 0 =
        ground (arith, e, inv.phase, inv.counted, started.phases) in
      omega (
        arith,
        Guarded-total old k w2.queues o inv.guarded done,
        act_all-seen k old memory l w1 w2 o new r,
        send_barriers-seen k sendable w.ctx.tasks w1.ctx.tasks w.queues w1.queues started.sending,
        ap (occurrences k) started.same_processed,
      )
