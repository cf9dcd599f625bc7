-- ===== src/Pool/Start.antt =====
-- The pool from its creation on.
use bind_dyndb_ldap_pagure_i.Prelude.{ℕ, zero, suc, List, [], ◌∷◌}
use bind_dyndb_ldap_pagure_i.Isc.{Mutex, unlocked}
use bind_dyndb_ldap_pagure_i.Pool.{Pool, Thread, idle}

abbrev unlocked_conns : ℕ → List Mutex
unlocked_conns zero = []
unlocked_conns (suc n) = unlocked ∷ unlocked_conns n

abbrev pub idle_threads : ℕ → List Thread
idle_threads zero = []
idle_threads (suc m) = idle ∷ idle_threads m
