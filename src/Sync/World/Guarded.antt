-- ===== src/Sync/World/Guarded.antt =====
-- Queues in which a barrier event stands behind each change that was there before the barrier.
use bind_dyndb_ldap_pagure_i.Prelude.{
  ℕ, zero, suc, ◌<◌, ◌≤◌, ◌≡◌, Bool, true, false, some, List, [], ◌∷◌, ◌++◌, arith, set, get_elem?,
  All,
}
use bind_dyndb_ldap_pagure_i.Sync.World.{Event, update, barrierev, finishev, send, Act, runs, posts}
use bind_dyndb_ldap_pagure_i.Sync.World.Queues.{Queue, barriers}

-- `old` tells the changes that were queued before the barrier: behind each of them in its queue
-- stands a barrier event.
abbrev pub Guarded : (ℕ → Bool) → Queue → Type 0
Guarded old [] = Unit
Guarded old (update k ∷ q) = (old k ≡ true → 0 < barriers q) × Guarded old q
Guarded old (barrierev ∷ q) = Guarded old q
Guarded old (finishev ∷ q) = Guarded old q

abbrev pub Fresh : (ℕ → Bool) → Event → Type 0
Fresh old (update k) = old k ≡ false
Fresh old barrierev = Unit
Fresh old finishev = Unit

-- Changes that are queued while the barrier waits are not old.
abbrev pub IsNew : (ℕ → Bool) → Act → Type 0
IsNew old (runs t) = Unit
IsNew old (posts t k) = old k ≡ false

module _ (old : ℕ → Bool) where
  barriers-grow : (q : Queue) (e : Event) → barriers q ≤ barriers (q ++ e ∷ [])
  barriers-grow [] e = omega arith
  barriers-grow (update k ∷ q) e = barriers-grow q e
  barriers-grow (barrierev ∷ q) e = omega (arith, barriers-grow q e)
  barriers-grow (finishev ∷ q) e = barriers-grow q e

  Guarded-append : (q : Queue) (e : Event) → Fresh old e → Guarded old q → Guarded old (q ++ e ∷ [])
  Guarded-append [] (update k) h g = ((λ p. cc (h, p)), tt)
  Guarded-append [] barrierev h g = tt
  Guarded-append [] finishev h g = tt
  Guarded-append (update k ∷ q) e h g =
      ((λ p. let lt = g.0 p in omega (arith, barriers-grow q e)), Guarded-append q e h g.1)
  Guarded-append (barrierev ∷ q) e h g = Guarded-append q e h g
  Guarded-append (finishev ∷ q) e h g = Guarded-append q e h g

  barriers-last : (q : Queue) → 0 < barriers (q ++ barrierev ∷ [])
  barriers-last [] = omega arith
  barriers-last (update k ∷ q) = barriers-last q
  barriers-last (barrierev ∷ q) = omega arith
  barriers-last (finishev ∷ q) = barriers-last q

  pub Guarded-barrier : (q : Queue) → Guarded old (q ++ barrierev ∷ [])
  Guarded-barrier [] = tt
  Guarded-barrier (update k ∷ q) = ((λ p. barriers-last q), Guarded-barrier q)
  Guarded-barrier (barrierev ∷ q) = Guarded-barrier q
  Guarded-barrier (finishev ∷ q) = Guarded-barrier q

  pub Guarded-send :
      (qs : List Queue) (t : ℕ) (e : Event)
      → Fresh old e
      → All (Guarded old) qs
      → All (Guarded old) (send qs t e)
  unfolding send
  Guarded-send [] t e h g = tt
  Guarded-send (q ∷ qs) zero e h g = (Guarded-append q e h g.0, g.1)
  Guarded-send (q ∷ qs) (suc t) e h g = (g.0, Guarded-send qs t e h g.1)

  Guarded-tail : (e : Event) (q : Queue) → Guarded old (e ∷ q) → Guarded old q
  Guarded-tail (update k) q g = g.1
  Guarded-tail barrierev q g = g
  Guarded-tail finishev q g = g

  pub Guarded-take :
      (qs : List Queue) (t : ℕ) (e : Event) (q : Queue)
      → get_elem? qs t ≡ some (e ∷ q)
      → All (Guarded old) qs
      → All (Guarded old) (set qs t q)
  Guarded-take [] t e q h g = tt
  Guarded-take (x ∷ qs) zero e q h g = (Guarded-tail e q (ground (arith, g.0)), g.1)
  Guarded-take (x ∷ qs) (suc t) e q h g = (g.0, Guarded-take qs t e q h g.1)
