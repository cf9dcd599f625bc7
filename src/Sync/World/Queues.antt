-- ===== src/Sync/World/Queues.antt =====
-- Counting the events in the queues of the tasks.
use bind_dyndb_ldap_pagure_i.Prelude.{
  ℕ, zero, suc, ◌+◌, ◌<◌, ◌≤◌, ◌≡◌, refl, some, List, [], ◌∷◌, ◌++◌, arith, set, get_elem?, length,
}
use bind_dyndb_ldap_pagure_i.Sync.World.{Event, update, barrierev, finishev, send}

abbrev pub Queue : Type 0
Queue = List Event

abbrev pub barriers : Queue → ℕ
barriers [] = 0
barriers (barrierev ∷ q) = suc (barriers q)
barriers (update k ∷ q) = barriers q
barriers (finishev ∷ q) = barriers q

abbrev pub finishes : Queue → ℕ
finishes [] = 0
finishes (finishev ∷ q) = suc (finishes q)
finishes (update k ∷ q) = finishes q
finishes (barrierev ∷ q) = finishes q

-- Each event counts for the steps that it can cause: a barrier event may send a finish event.
abbrev pub work : Queue → ℕ
work [] = 0
work (update k ∷ q) = suc (work q)
work (barrierev ∷ q) = suc (suc (work q))
work (finishev ∷ q) = suc (work q)

abbrev pub total : (Queue → ℕ) → List Queue → ℕ
total f [] = 0
total f (q ∷ qs) = f q + total f qs

pub total-set :
    (f : Queue → ℕ) (qs : List Queue) (t : ℕ) (q q' : Queue)
    → get_elem? qs t ≡ some q
    → total f (set qs t q') + f q ≡ total f qs + f q'
total-set f [] t q q' h = cc
total-set f (x ∷ qs) zero q q' h = ground arith
total-set f (x ∷ qs) (suc t) q q' h = omega (arith, total-set f qs t q q' h)

pub total-ge :
    (f : Queue → ℕ) (qs : List Queue) (t : ℕ) (q : Queue)
    → get_elem? qs t ≡ some q
    → f q ≤ total f qs
total-ge f [] t q h = cc
total-ge f (x ∷ qs) zero q h = ground arith
total-ge f (x ∷ qs) (suc t) q h = omega (arith, total-ge f qs t q h)

barriers-append : (q r : Queue) → barriers (q ++ r) ≡ barriers q + barriers r
barriers-append [] r = omega arith
barriers-append (update k ∷ q) r = barriers-append q r
barriers-append (barrierev ∷ q) r = omega (arith, barriers-append q r)
barriers-append (finishev ∷ q) r = barriers-append q r

finishes-append : (q r : Queue) → finishes (q ++ r) ≡ finishes q + finishes r
finishes-append [] r = omega arith
finishes-append (update k ∷ q) r = finishes-append q r
finishes-append (barrierev ∷ q) r = finishes-append q r
finishes-append (finishev ∷ q) r = omega (arith, finishes-append q r)

work-append : (q r : Queue) → work (q ++ r) ≡ work q + work r
work-append [] r = omega arith
work-append (update k ∷ q) r = omega (arith, work-append q r)
work-append (barrierev ∷ q) r = omega (arith, work-append q r)
work-append (finishev ∷ q) r = omega (arith, work-append q r)

module _ (f : Queue → ℕ) (appends : (q r : Queue) → f (q ++ r) ≡ f q + f r) (e : Event) where
  pub total-send :
      (qs : List Queue) (t : ℕ) → t < length qs → total f (send qs t e) ≡ total f qs + f (e ∷ [])
  unfolding send
  total-send [] t h = elim h [ ]
  total-send (q ∷ qs) zero h = omega (arith, appends q (e ∷ []))
  total-send (q ∷ qs) (suc t) h = omega (arith, total-send qs t (omega arith))

  pub total-send_zero :
      (qs : List Queue) (t : ℕ) → f (e ∷ []) ≡ 0 → total f (send qs t e) ≡ total f qs
  unfolding send
  total-send_zero [] t h = refl
  total-send_zero (q ∷ qs) zero h = omega (arith, appends q (e ∷ []))
  total-send_zero (q ∷ qs) (suc t) h = omega (arith, total-send_zero qs t h)

pub barriers-send :
    (e : Event) (qs : List Queue) (t : ℕ)
    → t < length qs
    → total barriers (send qs t e) ≡ total barriers qs + barriers (e ∷ [])
barriers-send = total-send barriers barriers-append

pub finishes-send :
    (e : Event) (qs : List Queue) (t : ℕ)
    → t < length qs
    → total finishes (send qs t e) ≡ total finishes qs + finishes (e ∷ [])
finishes-send = total-send finishes finishes-append

pub work-send :
    (e : Event) (qs : List Queue) (t : ℕ)
    → t < length qs
    → total work (send qs t e) ≡ total work qs + work (e ∷ [])
work-send = total-send work work-append

pub barriers-send_update :
    (k : ℕ) (qs : List Queue) (t : ℕ) → total barriers (send qs t (update k)) ≡ total barriers qs
barriers-send_update k qs t = total-send_zero barriers barriers-append (update k) qs t refl

pub finishes-send_update :
    (k : ℕ) (qs : List Queue) (t : ℕ) → total finishes (send qs t (update k)) ≡ total finishes qs
finishes-send_update k qs t = total-send_zero finishes finishes-append (update k) qs t refl

pub length-send : (qs : List Queue) (t : ℕ) (e : Event) → length (send qs t e) ≡ length qs
unfolding send
length-send [] t e = refl
length-send (q ∷ qs) zero e = refl
length-send (q ∷ qs) (suc t) e = omega (arith, length-send qs t e)

pub length-set : (qs : List Queue) (t : ℕ) (q : Queue) → length (set qs t q) ≡ length qs
length-set [] t q = refl
length-set (x ∷ qs) zero q = refl
length-set (x ∷ qs) (suc t) q = omega (arith, length-set qs t q)

-- Where something is counted, there is a task to run.
pub busy_task :
    (f : Queue → ℕ) (qs : List Queue)
    → f [] ≡ 0
    → 0 < total f qs
    → (t : ℕ) × (e : Event) × (q : Queue) × (get_elem? qs t ≡ some (e ∷ q))
busy_task f [] z h = elim h [ ]
busy_task f ([] ∷ qs) z h = let (t, e, q, g) = busy_task f qs z (omega arith) in (suc t, e, q, g)
busy_task f ((e ∷ q) ∷ qs) z h = (zero, e, q, refl)
