-- ===== src/Pool.antt =====
-- src/ldap_helper.c: the pool of connections to LDAP. A connection is its mutex, which is `null` where
-- the array holds NULL. Threads take and return connections in steps: the semaphore, one trylock for
-- each connection, the unlock, and the signal.
pub mod Sums
pub mod Invariant
pub mod Exclusive
pub mod Start
mod Tests
use bind_dyndb_ldap_pagure_i.Prelude.{
  ℕ, zero, suc, ◌+◌, ◌-◌, Bool, true, false, ◌||◌, Option, none, some, List, [], ◌∷◌, ltb, ◌==◌,
  if◌then◌else◌, length, get_elem?, set,
}
use bind_dyndb_ldap_pagure_i.Isc.{
  IscResult, success, nomemory, timedout, notconnected, is_success, Run, returns, aborts, undefined,
  ◌>>=◌, ◌>>◌, require, Mutex, null, unlocked, locked, unlock,
}
use bind_dyndb_ldap_pagure_i.Semaphore.{
  Semaphore, semaphore_init, semaphore_wait_timed, semaphore_signal,
}

-- `ldap_pool_t`
pub record Pool : Type 0 where
  pub conn_semaphore : Semaphore
  pub conns : List Mutex

-- The array after `memset`.
unfoldable pub no_conns : ℕ → List Mutex
no_conns zero = []
no_conns (suc n) = null ∷ no_conns n

-- `mem` and `array_mem` say whether the two requests for memory succeed.
abbrev pub filled_pool : ℕ → Bool → IscResult × Semaphore → IscResult × Pool
filled_pool connections array_mem (r, sem) =
    let result = if is_success r then (if array_mem then success else nomemory) else r in
    (result, record { conn_semaphore = sem; conns = no_conns connections })

-- The pool counts only with ISC_R_SUCCESS.
unfoldable pub ldap_pool_create : Bool → Bool → IscResult → ℕ → Run (IscResult × Pool)
unfolding no_conns
ldap_pool_create mem array_mem init connections =
    if mem
    then (do
      made ← semaphore_init connections init init
      returns (filled_pool connections array_mem made))
    else returns (nomemory, record { conn_semaphore = record { value = 0 }; conns = [] })

abbrev pub is_tolerated : IscResult → Bool
is_tolerated success = true
is_tolerated notconnected = true
is_tolerated timedout = true
is_tolerated _ = false

-- For each connection the results of `new_ldap_connection` and `ldap_connect`. A failure destroys the
-- connections that are in the array.
unfoldable pub connect_loop : (ℕ → IscResult × IscResult) → ℕ → List Mutex → IscResult × List Mutex
connect_loop attempts i [] = (success, [])
connect_loop attempts i (conn ∷ conns) =
    let (created, connected) = attempts i in
    let (result, rest) = connect_loop attempts (suc i) conns in
    if is_success created
    then (if is_tolerated connected then (result, unlocked ∷ rest) else (connected, conn ∷ conns))
    else (created, conn ∷ conns)

unfoldable pub ldap_pool_connect : (ℕ → IscResult × IscResult) → Pool → IscResult × Pool
unfolding connect_loop no_conns
ldap_pool_connect attempts pool =
    let (result, conns) = connect_loop attempts 0 pool.conns in
    (
      result,
      record pool { conns = if is_success result then conns else no_conns (length pool.conns) },
    )

-- Where a thread stands: outside, at a connection in the loop of `ldap_pool_getconnection`, with a
-- connection, or before the signal of `ldap_pool_putconnection`.
pub data Thread : Type 0 where
  idle : Thread
  scanning : ℕ → Thread
  holding : ℕ → Thread
  signalling : Thread

-- The thread is let in, or its time is up.
abbrev pub entered : Pool → IscResult × Semaphore → Run (Pool × Thread)
entered pool (success, sem) = do
  require (ltb 0 (length pool.conns))
  returns (record pool { conn_semaphore = sem }, scanning 0)
entered pool (_, sem) = returns (record pool { conn_semaphore = sem }, idle)

-- `isc_mutex_trylock` in the body of the loop.
abbrev pub try_lock : Pool → ℕ → Mutex → Run (Pool × Thread)
try_lock pool i null = undefined
try_lock pool i unlocked = returns (record pool { conns = set pool.conns i locked }, holding i)
try_lock pool i locked = returns (pool, scanning (suc i))

-- A loop that has come to the end goes on with the last connection, which it has not locked.
abbrev pub at_conn : Pool → ℕ → Option Mutex → Run (Pool × Thread)
at_conn pool i none = returns (pool, holding (length pool.conns - 1))
at_conn pool i (some conn) = try_lock pool i conn

abbrev pub unlock_conn : Pool → ℕ → Option Mutex → Run (Pool × Thread)
unlock_conn pool i none = undefined
unlock_conn pool i (some conn) = do
  conn' ← unlock conn
  returns (record pool { conns = set pool.conns i conn' }, signalling)

-- The next step of a thread. The timed wait ends with ISC_R_TIMEDOUT if the value is still 0.
unfoldable pub next : Pool → Thread → Run (Pool × Thread)
unfolding semaphore_wait_timed semaphore_signal
next pool idle = do
  let value = pool.conn_semaphore.value
  waited ← semaphore_wait_timed success value ((timedout, value) ∷ [])
  entered pool waited
next pool (scanning i) = at_conn pool i (get_elem? pool.conns i)
next pool (holding i) = unlock_conn pool i (get_elem? pool.conns i)
next pool signalling =
    returns (record pool { conn_semaphore = semaphore_signal pool.conn_semaphore }, idle)

pub record System : Type 0 where
  pub pool : Pool
  pub threads : List Thread

abbrev pub thread_step : System → ℕ → Option Thread → Run System
thread_step s t none = returns s
thread_step s t (some thread) = do
  (pool, thread') ← next s.pool thread
  returns (record { pool = pool; threads = set s.threads t thread' })

-- The threads run in the order of the list, a step at a time.
unfoldable pub run : System → List ℕ → Run System
run s [] = returns s
run s (t ∷ rest) = thread_step s t (get_elem? s.threads t) >>= λ s'. run s' rest
