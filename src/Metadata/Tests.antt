-- ===== src/Metadata/Tests.antt =====
-- The theorems about the metadata at concrete arguments.
use bind_dyndb_ldap_pagure_i.Prelude.{
  ℕ, ◌≡◌, refl, inr, true, none, some, [], ◌∷◌, ◌==◌, ltb, if◌then◌else◌, arith,
}
use bind_dyndb_ldap_pagure_i.Isc.{success, ok, returns, unlocked, locked}
use bind_dyndb_ldap_pagure_i.LdapEntry.Class.{EntryClass, no_class}
use bind_dyndb_ldap_pagure_i.Metadata.{
  rd_a, rd_aaaa, Metadb, metadb_newversion, metadb_writenode, metadb_rdata_store,
  metadb_rdataset_get,
}
use bind_dyndb_ldap_pagure_i.Metadata.Mldap.{
  class_bits, word_bytes, bytes_word, Mldap, mldap_class_store, mldap_generation_store,
  mldap_generation_get, store_entry, mldap_entry_create, mldap_iter_deadnodes_start,
}
use bind_dyndb_ldap_pagure_i.Metadata.Stored.{Holds, mldap_entry_create-Holds}
use bind_dyndb_ldap_pagure_i.Metadata.Dead.{for_each_dead, dead, for_each_dead_lem}
use bind_dyndb_ldap_pagure_i.Metadata.Functions.{Data, add, functions, nothing}

abbrev fresh : Metadb functions
fresh = record { newversion_lock = unlocked; current = nothing; newversion = none }

abbrev writing : Mldap functions
writing = record {
  mdb = record { newversion_lock = locked; current = nothing; newversion = some nothing };
  generation = 258;
}

newversion_run : metadb_newversion functions fresh ≡ returns (success, writing.mdb)
unfolding metadb_newversion
newversion_run = refl

abbrev class : EntryClass
class = record no_class { rr = true; master = true }

abbrev written : Data
written =
    add (add nothing 6 rd_aaaa (3 ∷ 0 ∷ 0 ∷ 0 ∷ 0 ∷ 0 ∷ 0 ∷ 0 ∷ 0 ∷ 0 ∷ 0 ∷ 0 ∷ 0 ∷ 0 ∷ 0 ∷ 0 ∷ []))
      6 rd_a (2 ∷ 1 ∷ 0 ∷ 0 ∷ [])

abbrev stored : Mldap functions
stored = record writing { mdb = record writing.mdb { newversion = some written } }

create_run : mldap_entry_create functions 5 class writing ≡ returns (ok 6, stored)
unfolding mldap_entry_create metadb_writenode store_entry mldap_class_store mldap_generation_store
    metadb_rdata_store class_bits word_bytes
create_run = refl

mldap_entry_create-Holds_example : (◌≡◌ {A = ℕ} 6 6) × Holds functions stored 6 class 258
mldap_entry_create-Holds_example =
    mldap_entry_create-Holds functions 5 class writing stored 6 (omega arith) create_run

-- Entry 6 is of generation 258, entry 8 of generation 259.
abbrev two_entries : Data
two_entries = add written 8 rd_a (3 ∷ 1 ∷ 0 ∷ 0 ∷ [])

abbrev later : Mldap functions
later = record {
  mdb = record { newversion_lock = unlocked; current = two_entries; newversion = none };
  generation = 259;
}

abbrev generation_of : ℕ → ℕ
generation_of n = if n == 6 then 258 else 259

generation_six : mldap_generation_get functions two_entries 6 ≡ returns (ok 258)
unfolding mldap_generation_get metadb_rdataset_get bytes_word
generation_six = refl

generation_eight : mldap_generation_get functions two_entries 8 ≡ returns (ok 259)
unfolding mldap_generation_get metadb_rdataset_get bytes_word
generation_eight = refl

for_each_dead_lem_example :
    for_each_dead functions ltb later 3 (mldap_iter_deadnodes_start functions ltb later)
    ≡ returns (dead functions ltb later two_entries generation_of (λ n. n) (6 ∷ 8 ∷ []))
for_each_dead_lem_example =
    for_each_dead_lem functions ltb later two_entries generation_of (λ n. n) (6 ∷ 8 ∷ []) refl refl
      (inr (refl, generation_six, refl), (inr (refl, generation_eight, refl), tt))

dead_run : dead functions ltb later two_entries generation_of (λ n. n) (6 ∷ 8 ∷ []) ≡ 6 ∷ []
unfolding dead
dead_run = refl
