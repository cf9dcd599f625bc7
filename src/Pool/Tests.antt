-- ===== src/Pool/Tests.antt =====
-- Three threads at two connections.
use bind_dyndb_ldap_pagure_i.Prelude.{ℕ, ◌≡◌, refl, List, [], ◌∷◌}
use bind_dyndb_ldap_pagure_i.Isc.{IscResult, success, notconnected, returns, unlocked, locked}
use bind_dyndb_ldap_pagure_i.Semaphore.{semaphore_wait_timed, timed_loop, semaphore_signal}
use bind_dyndb_ldap_pagure_i.Pool.{Pool, no_conns, idle, holding, signalling, next, run}
use bind_dyndb_ldap_pagure_i.Pool.Start.{idle_threads}

-- The server is down for the second connection.
abbrev attempts : ℕ → IscResult × IscResult
attempts i = (success, notconnected)

abbrev created_pool : Pool
created_pool = record { conn_semaphore = record { value = 2 }; conns = no_conns 2 }

abbrev connected_pool : Pool
connected_pool = record { conn_semaphore = record { value = 2 }; conns = unlocked ∷ unlocked ∷ [] }

-- Both of the first threads are let in before either locks a connection; the third has to wait.
abbrev schedule : List ℕ
schedule = 0 ∷ 1 ∷ 0 ∷ 1 ∷ 1 ∷ 2 ∷ 0 ∷ []

schedule-run :
    run (record { pool = connected_pool; threads = idle_threads 3 }) schedule
    ≡ returns (record {
      pool = record { conn_semaphore = record { value = 0 }; conns = unlocked ∷ locked ∷ [] };
      threads = signalling ∷ holding 1 ∷ idle ∷ [];
    })
unfolding run next semaphore_wait_timed timed_loop semaphore_signal
schedule-run = refl
