-- ===== src/Pool/Exclusive.antt =====
-- The pool of connections under any schedule of any number of threads.
use bind_dyndb_ldap_pagure_i.Prelude.{
  ℕ, suc, ◌+◌, ◌-◌, ◌≤◌, ◌≡◌, ◌≢◌, refl, inl, inr, true, some, List, [], ◌∷◌, ◌==◌, ltb,
  if◌then◌else◌, arith, length, get_elem?, set, ap, sym, subst, ℕ_discrete, ◌∙◌, Option-cases,
  get_elem?-none, length-set, get_elem?-set, get_elem?-set_ne, Bool-cases,
}
use bind_dyndb_ldap_pagure_i.Isc.{returns, Mutex, null, unlocked, locked, ◌>>=◌}
use bind_dyndb_ldap_pagure_i.Semaphore.{timed_loop, semaphore_wait_timed, semaphore_signal}
use bind_dyndb_ldap_pagure_i.Pool.{
  Thread, idle, scanning, holding, signalling, at_conn, unlock_conn, next, System, thread_step, run,
}
use bind_dyndb_ldap_pagure_i.Pool.Sums.{total, weight_le-total}
use bind_dyndb_ldap_pagure_i.Pool.Invariant.{
  Inv, slot, holds, beyond, locked_bit, moved-Inv, passed_room, scanning_lt, beyond_le-slot,
}

-- The state after a write to one connection.
locked_bit-set :
    (conns : List Mutex) (i k : ℕ) (old new : Mutex)
    → get_elem? conns i ≡ some old
    → locked_bit (get_elem? (set conns i new) k)
      ≡ (if i == k then locked_bit (some new) else locked_bit (get_elem? conns k))
locked_bit-set conns i k old new here = elim (ℕ_discrete i k) [
  | yes e ↦
      let value : get_elem? (set conns i new) k ≡ some new =
        subst (λ j. get_elem? (set conns i new) j ≡ some new) e
          (get_elem?-set conns i new old here) in
      ground (arith, value, e)
  | no ne ↦ ground (arith, get_elem?-set_ne conns i k new ne, ne)
]

present-set :
    (conns : List Mutex) (i : ℕ) (old new : Mutex)
    → get_elem? conns i ≡ some old
    → new ≢ null
    → ((k : ℕ) → get_elem? conns k ≢ some null)
    → (k : ℕ) → get_elem? (set conns i new) k ≢ some null
present-set conns i old new here ne h k e = elim (ℕ_discrete i k) [
  | yes same ↦
      let value : get_elem? (set conns i new) k ≡ some new =
        subst (λ j. get_elem? (set conns i new) j ≡ some new) same
          (get_elem?-set conns i new old here) in
      ground (arith, value, e, ne)
  | no other ↦ h k (sym (get_elem?-set_ne conns i k new other) ∙ e)
]

-- A step of a thread with its invariant.
abbrev Steps : ℕ → System → ℕ → Thread → Type 0
Steps n s i old = (s' : System) × (thread_step s i (some old) ≡ returns s') × Inv n s'

signalling-Steps :
    (n : ℕ) (s : System) (i : ℕ)
    → get_elem? s.threads i ≡ some signalling
    → Inv n s
    → Steps n s i signalling
unfolding next semaphore_signal
signalling-Steps n s i here v = (
  _,
  refl,
  moved-Inv n s i signalling idle
      (record s.pool { conn_semaphore = semaphore_signal s.pool.conn_semaphore }) here v v.size
      (omega arith) (λ k le. omega (arith, v.room k le)) (λ k. refl) v.present,
)

holding-Steps :
    (n : ℕ) (s : System) (i k : ℕ)
    → get_elem? s.threads i ≡ some (holding k)
    → Inv n s
    → Steps n s i (holding k)
unfolding next
holding-Steps n s i k here v =
    let mine : locked_bit (get_elem? s.pool.conns k) ≢ 0 =
      ground (arith, v.owned k, weight_le-total (holds k) s.threads i (holding k) here) in
    let conn : get_elem? s.pool.conns k ≡ some locked = ground (arith, mine) in
    (
      _,
      ap
          (λ o. unlock_conn s.pool k o >>= λ r.
            returns (record { pool = r.0; threads = set s.threads i r.1 }))
          conn,
      moved-Inv n s i (holding k) signalling (record s.pool { conns = set s.pool.conns k unlocked })
          here v (length-set s.pool.conns k unlocked ∙ v.size) refl
          (λ j le. ground (arith, v.room j le))
          (λ j. ground (arith, locked_bit-set s.pool.conns k j locked unlocked conn, conn))
          (present-set s.pool.conns k locked unlocked conn (λ e. ground (arith, e)) v.present),
    )

scanning-Steps :
    (n : ℕ) (s : System) (i k : ℕ)
    → get_elem? s.threads i ≡ some (scanning k)
    → Inv n s
    → Steps n s i (scanning k)
unfolding next
scanning-Steps n s i k here v = elim (Option-cases (get_elem? s.pool.conns k)) [
  | inl e ↦
      absurd (ground (arith, get_elem?-none s.pool.conns k e, v.size, scanning_lt n s i k here v))
  | inr (null, e) ↦ absurd (v.present k e)
  | inr (unlocked, e) ↦ (
    _,
    ap
        (λ o. at_conn s.pool k o >>= λ r.
          returns (record { pool = r.0; threads = set s.threads i r.1 }))
        e,
    moved-Inv n s i (scanning k) (holding k) (record s.pool { conns = set s.pool.conns k locked })
        here v (length-set s.pool.conns k locked ∙ v.size) refl
        (λ j le. ground (arith, v.room j le))
        (λ j. ground (arith, locked_bit-set s.pool.conns k j unlocked locked e, e))
        (present-set s.pool.conns k unlocked locked e (λ q. ground (arith, q)) v.present),
  )
  | inr (locked, e) ↦ (
    _,
    ap
        (λ o. at_conn s.pool k o >>= λ r.
          returns (record { pool = r.0; threads = set s.threads i r.1 }))
        e,
    moved-Inv n s i (scanning k) (scanning (suc k)) s.pool here v v.size refl
        (λ j le. passed_room n s i k j here v e le) (λ j. refl) v.present,
  )
]

total_le : (k : ℕ) (ts : List Thread) → total (beyond k) ts ≤ total slot ts
unfolding total
total_le k [] = omega arith
total_le k (t ∷ ts) = omega (arith, beyond_le-slot k t, total_le k ts)

entered_room :
    (n : ℕ) (s : System) (k : ℕ)
    → Inv n s
    → s.pool.conn_semaphore.value ≢ 0
    → k ≤ n
    → total (beyond k) s.threads + beyond k (scanning 0) + k ≤ n + beyond k idle
entered_room n s k v some_left le =
    ground (arith, v.room k le, v.slots, total_le k s.threads, some_left)

idle-Steps :
    (n : ℕ) (s : System) (i : ℕ) → get_elem? s.threads i ≡ some idle → Inv n s → Steps n s i idle
unfolding next semaphore_wait_timed timed_loop
idle-Steps n s i here v =
    let value : ℕ = s.pool.conn_semaphore.value in
    elim (Bool-cases (value == 0)) [
      | inl e ↦ (
        _,
        rw e refl,
        moved-Inv n s i idle idle s.pool here v v.size refl (λ k le. omega (arith, v.room k le))
            (λ k. refl) v.present,
      )
      | inr e ↦
          let positive : ltb 0 (length s.pool.conns) ≡ true = ground (arith, v.slots, v.size, e) in
          (
            _,
            rw (e, positive) refl,
            moved-Inv n s i idle (scanning 0)
                (record s.pool { conn_semaphore = record { value = value - 1 } }) here v v.size
                (ground (arith, e)) (λ k le. entered_room n s k v (ground (arith, e)) le)
                (λ k. refl) v.present,
          )
    ]

thread_step-Steps :
    (n : ℕ) (s : System) (i : ℕ) (thread : Thread)
    → get_elem? s.threads i ≡ some thread
    → Inv n s
    → Steps n s i thread
thread_step-Steps n s i idle here v = idle-Steps n s i here v
thread_step-Steps n s i (scanning k) here v = scanning-Steps n s i k here v
thread_step-Steps n s i (holding k) here v = holding-Steps n s i k here v
thread_step-Steps n s i signalling here v = signalling-Steps n s i here v

pub run-Inv :
    (n : ℕ) (s : System) (schedule : List ℕ)
    → Inv n s
    → (s' : System) × (run s schedule ≡ returns s') × Inv n s'
unfolding run
run-Inv n s [] v = (s, refl, v)
run-Inv n s (i ∷ rest) v = elim (Option-cases (get_elem? s.threads i)) [
  | inl e ↦
      let (s', value, v') = run-Inv n s rest v in
      (s', ap (λ o. thread_step s i o >>= λ u. run u rest) e ∙ value, v')
  | inr (thread, e) ↦
      let (u, stepped, w) = thread_step-Steps n s i thread e v in
      let (s', value, v') = run-Inv n u rest w in
      (
        s',
        ap (λ o. thread_step s i o >>= λ x. run x rest) e
            ∙ ap (λ r. r >>= λ x. run x rest) stepped
            ∙ value,
        v',
      )
]
