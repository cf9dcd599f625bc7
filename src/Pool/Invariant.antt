-- ===== src/Pool/Invariant.antt =====
-- Why no thread that is let in can miss a free connection.
use bind_dyndb_ldap_pagure_i.Prelude.{
  ℕ, suc, ◌+◌, ◌≤◌, ◌<◌, ◌≡◌, ◌≢◌, refl, Option, some, List, ◌==◌, leb, if◌then◌else◌, arith,
  length, get_elem?, set, ap, subst, ℕ_discrete, ◌∙◌,
}
use bind_dyndb_ldap_pagure_i.Isc.{Mutex, null, locked}
use bind_dyndb_ldap_pagure_i.Pool.{Pool, Thread, idle, scanning, holding, signalling, System}
use bind_dyndb_ldap_pagure_i.Pool.Sums.{total, total-set, weight_le-total, total_split}

-- Whether a thread has a slot of the semaphore.
abbrev pub slot : Thread → ℕ
slot idle = 0
slot (scanning i) = 1
slot (holding i) = 1
slot signalling = 1

abbrev pub holds : ℕ → Thread → ℕ
holds k idle = 0
holds k (scanning i) = 0
holds k (holding i) = if i == k then 1 else 0
holds k signalling = 0

abbrev pub scans : ℕ → Thread → ℕ
scans k idle = 0
scans k (scanning i) = if i == k then 1 else 0
scans k (holding i) = 0
scans k signalling = 0

-- Whether a thread is at connection k or behind it, in the loop or as a holder.
abbrev pub beyond : ℕ → Thread → ℕ
beyond k idle = 0
beyond k (scanning i) = if leb k i then 1 else 0
beyond k (holding i) = if leb k i then 1 else 0
beyond k signalling = 0

abbrev pub locked_bit : Option Mutex → ℕ
locked_bit (some locked) = 1
locked_bit _ = 0

beyond_split : (k : ℕ) (t : Thread) → beyond k t ≡ beyond (suc k) t + (holds k t + scans k t)
beyond_split k idle = refl
beyond_split k (scanning i) = ground arith
beyond_split k (holding i) = ground arith
beyond_split k signalling = refl

pub beyond_le-slot : (k : ℕ) (t : Thread) → beyond k t ≤ slot t
beyond_le-slot k idle = omega arith
beyond_le-slot k (scanning i) = ground arith
beyond_le-slot k (holding i) = ground arith
beyond_le-slot k signalling = omega arith

-- Every slot is with the semaphore or with a thread. From connection k on there are at least as many
-- connections as threads that are there, so that one of them can still be free for each thread in
-- the loop. A connection is locked just if one thread holds it.
pub record Inv (n : ℕ) (s : System) : Type 0 where
  pub size : length s.pool.conns ≡ n
  pub slots : s.pool.conn_semaphore.value + total slot s.threads ≡ n
  pub room : (k : ℕ) → k ≤ n → total (beyond k) s.threads + k ≤ n
  pub owned : (k : ℕ) → total (holds k) s.threads ≡ locked_bit (get_elem? s.pool.conns k)
  pub present : (k : ℕ) → get_elem? s.pool.conns k ≢ some null

-- What the move of one thread has to show.
pub moved-Inv :
    (n : ℕ) (s : System) (i : ℕ) (old new : Thread) (pool : Pool)
    → get_elem? s.threads i ≡ some old
    → Inv n s
    → length pool.conns ≡ n
    → pool.conn_semaphore.value + slot new ≡ s.pool.conn_semaphore.value + slot old
    → ((k : ℕ) → k ≤ n → total (beyond k) s.threads + beyond k new + k ≤ n + beyond k old)
    → ((k : ℕ)
        → locked_bit (get_elem? pool.conns k) + holds k old
          ≡ locked_bit (get_elem? s.pool.conns k) + holds k new)
    → ((k : ℕ) → get_elem? pool.conns k ≢ some null)
    → Inv n (record { pool = pool; threads = set s.threads i new })
moved-Inv n s i old new pool here v size slots room owned present = record {
  size = size;
  slots = omega (arith, slots, v.slots, total-set slot s.threads i old new here);
  room = λ k le. omega (arith, room k le, total-set (beyond k) s.threads i old new here);
  owned = λ k. omega (arith, owned k, v.owned k, total-set (holds k) s.threads i old new here);
  present = present;
}

-- A thread in the loop is at a connection, never behind the last one.
pub scanning_lt :
    (n : ℕ) (s : System) (i k : ℕ) → get_elem? s.threads i ≡ some (scanning k) → Inv n s → k < n
scanning_lt n s i k here v =
    let le : n ≤ n = omega arith in
    ground (arith, v.room n le, weight_le-total (beyond n) s.threads i (scanning k) here)

holds_or_scans : ℕ → Thread → ℕ
holds_or_scans k t = holds k t + scans k t

beyond_parts :
    (k : ℕ) (ts : List Thread)
    → total (beyond k) ts ≡ total (beyond (suc k)) ts + (total (holds k) ts + total (scans k) ts)
unfolding holds_or_scans
beyond_parts k ts =
    let outer = total_split (beyond k) (beyond (suc k)) (holds_or_scans k) (beyond_split k) ts in
    let inner = total_split (holds_or_scans k) (holds k) (scans k) (λ t. refl) ts in
    omega (arith, outer, inner)

-- Behind a connection that somebody has locked there is room for a thread that passes it.
room_behind :
    (n : ℕ) (s : System) (i k : ℕ)
    → get_elem? s.threads i ≡ some (scanning k)
    → Inv n s
    → get_elem? s.pool.conns k ≡ some locked
    → total (beyond (suc k)) s.threads + 1 + suc k ≤ n
room_behind n s i k here v busy =
    let lt = scanning_lt n s i k here v in
    let bit : total (holds k) s.threads ≡ 1 = v.owned k ∙ ap locked_bit busy in
    let one : scans k (scanning k) ≡ 1 = ground arith in
    omega (
      arith,
      v.room k (omega (arith, lt)),
      beyond_parts k s.threads,
      bit,
      one,
      weight_le-total (scans k) s.threads i (scanning k) here,
    )

pub passed_room :
    (n : ℕ) (s : System) (i k j : ℕ)
    → get_elem? s.threads i ≡ some (scanning k)
    → Inv n s
    → get_elem? s.pool.conns k ≡ some locked
    → j ≤ n
    → total (beyond j) s.threads + beyond j (scanning (suc k)) + j ≤ n + beyond j (scanning k)
passed_room n s i k j here v busy le = elim (ℕ_discrete (suc k) j) [
  | yes e ↦
      let behind : total (beyond j) s.threads + 1 + j ≤ n =
        subst (λ x. total (beyond x) s.threads + 1 + x ≤ n) e (room_behind n s i k here v busy) in
      ground (arith, behind, e)
  | no ne ↦ ground (arith, v.room j le, ne)
]
