-- ===== src/Semaphore/Limit.antt =====
-- The slots that the semaphore of src/semaphore.c gives to threads in any order of calls.
use bind_dyndb_ldap_pagure_i.Prelude.{
  ℕ, suc, ◌+◌, ◌-◌, ◌≤◌, ◌≡◌, refl, true, false, List, [], ◌∷◌, arith, ◌==◌, if◌then◌else◌, inl,
  inr, ◌⊎◌, Bool-cases,
}
use bind_dyndb_ldap_pagure_i.Isc.{
  IscResult, success, shuttingdown, is_success, Run, returns, aborts, undefined, blocks, ◌>>=◌,
  Run-cases,
}
use bind_dyndb_ldap_pagure_i.Semaphore.{
  Semaphore, semaphore_init, semaphore_wait, timed_loop, semaphore_wait_timed, semaphore_signal,
  Round, after_wait, sync_concurr_limit_wait,
}

-- The semaphore with the number of slots that are taken.
pub record Slots : Type 0 where
  pub semaphore : Semaphore
  pub taken : ℕ

-- A thread comes to take a slot, alone or with a time limit that runs out if there is none; or a
-- holder gives its slot back.
pub data Move : Type 0 where
  takes takes_timed gives : Move

abbrev timed_out : Slots → IscResult × Semaphore → Slots
timed_out s (success, sem) = record { semaphore = sem; taken = s.taken + 1 }
timed_out s (_, sem) = record s { semaphore = sem }

unfoldable pub move : IscResult → Slots → Move → Run Slots
move expiry s takes = do
  sem ← semaphore_wait (s.semaphore.value ∷ [])
  returns (record { semaphore = sem; taken = s.taken + 1 })
move expiry s takes_timed = do
  r ← semaphore_wait_timed success s.semaphore.value ((expiry, s.semaphore.value) ∷ [])
  returns (timed_out s r)
move expiry s gives =
    if s.taken == 0
    then returns s
    else returns (record { semaphore = semaphore_signal s.semaphore; taken = s.taken - 1 })

unfoldable pub move_all : IscResult → Slots → List Move → Run Slots
move_all expiry s [] = returns s
move_all expiry s (m ∷ rest) = move expiry s m >>= λ s'. move_all expiry s' rest

move-total :
    (expiry : IscResult) (s s' : Slots) (m : Move)
    → is_success expiry ≡ false
    → move expiry s m ≡ returns s'
    → s'.semaphore.value + s'.taken ≡ s.semaphore.value + s.taken
unfolding move semaphore_wait semaphore_wait_timed semaphore_signal
move-total expiry s s' takes f h = ground (arith, h)
move-total expiry s s' takes_timed f h = ground (arith, h, f)
move-total expiry s s' gives f h = ground (arith, h)

move_all-total :
    (expiry : IscResult) (s s' : Slots) (l : List Move)
    → is_success expiry ≡ false
    → move_all expiry s l ≡ returns s'
    → s'.semaphore.value + s'.taken ≡ s.semaphore.value + s.taken
unfolding move_all
move_all-total expiry s s' [] f h = ground (arith, h)
move_all-total expiry s s' (m ∷ l) f h = elim (Run-cases (move expiry s m)) [
  | inl (u, e) ↦
      let rest = move_all-total expiry u s' l f (ground (arith, h, e)) in
      omega (arith, rest, move-total expiry s u m f e)
  | inr e ↦ ground (arith, h, e)
]

-- Start from a semaphore with no slot taken. In whatever order threads take slots, fail to take
-- one in time, and give slots back, the slots that are taken and the semaphore's value add up to
-- the value that it was initialised with, so no more slots than that are taken.
pub semaphore_limits :
    (expiry : IscResult) (limit : ℕ) (sem : Semaphore) (l : List Move) (s' : Slots)
    → is_success expiry ≡ false
    → semaphore_init limit success success ≡ returns (success, sem)
    → move_all expiry (record { semaphore = sem; taken = 0 }) l ≡ returns s'
    → (s'.semaphore.value + s'.taken ≡ limit) × (s'.taken ≤ limit)
unfolding semaphore_init
semaphore_limits expiry limit sem l s' f i h =
    let sum = move_all-total expiry (record { semaphore = sem; taken = 0 }) s' l f h in
    let start : sem.value ≡ limit = ground (arith, i) in
    (omega (arith, sum, start), omega (arith, sum, start))

-- One of the values that the loop's condition saw.
abbrev pub Saw : ℕ → ℕ → List (IscResult × ℕ) → Type 0
Saw v value [] = v ≡ value
Saw v value ((r, value') ∷ later) = (v ≡ value) ⊎ Saw v value' later

timed_loop_success :
    (value : ℕ) (waits : List (IscResult × ℕ)) (sem : Semaphore)
    → timed_loop value waits ≡ returns (success, sem)
    → Saw (suc sem.value) value waits
unfolding timed_loop
timed_loop_success value [] sem h = ground (arith, h)
timed_loop_success value ((r, v) ∷ later) sem h = ground (arith, h, timed_loop_success v later sem)

-- A timed wait that succeeds has taken one from a positive value that it saw.
pub semaphore_wait_timed_success :
    (time : IscResult) (value : ℕ) (waits : List (IscResult × ℕ)) (sem : Semaphore)
    → semaphore_wait_timed time value waits ≡ returns (success, sem)
    → Saw (suc sem.value) value waits
unfolding semaphore_wait_timed
semaphore_wait_timed_success time value waits sem h =
    ground (arith, h, timed_loop_success value waits sem)

-- Some round before the instance is seen exiting has taken a slot.
abbrev pub Enters : List Round → Type 0
Enters [] = ⊥
Enters (r ∷ rounds) =
    (r.exiting ≡ false)
    × (((sem : Semaphore) × (semaphore_wait_timed r.time r.value r.waits ≡ returns (success, sem)))
        ⊎ Enters rounds)

-- The instance was seen exiting.
abbrev pub Exits : List Round → Type 0
Exits [] = ⊥
Exits (r ∷ rounds) = (r.exiting ≡ true) ⊎ Exits rounds

after_wait-cases :
    (w : Run (IscResult × Semaphore)) (again : Run IscResult) (r : IscResult)
    → after_wait w again ≡ returns r
    → ((r ≡ success) × ((sem : Semaphore) × (w ≡ returns (success, sem)))) ⊎ (again ≡ returns r)
after_wait-cases (returns (success, sem)) again r h = inl (ground (arith, h), (sem, refl))
after_wait-cases (returns (_, sem)) again r h = inr h
after_wait-cases aborts again r h = cc
after_wait-cases undefined again r h = cc
after_wait-cases blocks again r h = cc

-- `sync_concurr_limit_wait` never lets a sender through without a slot: it returns success after
-- a round has taken one, or ISC_R_SHUTTINGDOWN after the instance has been seen exiting, and
-- nothing else; a wait that has run out of time is tried again.
pub sync_concurr_limit_wait_outcomes :
    (rounds : List Round) (r : IscResult)
    → sync_concurr_limit_wait rounds ≡ returns r
    → ((r ≡ success) × Enters rounds) ⊎ ((r ≡ shuttingdown) × Exits rounds)
unfolding sync_concurr_limit_wait
sync_concurr_limit_wait_outcomes [] r h = cc
sync_concurr_limit_wait_outcomes (x ∷ rounds) r h = elim (Bool-cases x.exiting) [
  | inl e ↦ inr (ground (arith, h, e), inl e)
  | inr e ↦ elim (Bool-cases (is_success x.deadline)) [
    | inr d ↦ ground (arith, h, e, d)
    | inl d ↦
        elim (after_wait-cases (semaphore_wait_timed x.time x.value x.waits)
          (sync_concurr_limit_wait rounds) r (ground (arith, h, e, d))) [
            | inl (s, taken) ↦ inl (s, (e, inl taken))
            | inr again ↦ elim (sync_concurr_limit_wait_outcomes rounds r again) [
              | inl (s, later) ↦ inl (s, (e, inr later))
              | inr (s, later) ↦ inr (s, inr later)
            ]
          ]
  ]
]
