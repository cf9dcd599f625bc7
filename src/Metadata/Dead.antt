-- ===== src/Metadata/Dead.antt =====
-- The entries that the loop over `mldap_iter_deadnodes_start` and `mldap_iter_deadnodes_next` in
-- src/ldap_helper.c comes to.
use bind_dyndb_ldap_pagure_i.Prelude.{
  ℕ, zero, suc, ◌<◌, ◌≡◌, refl, ◌∙◌, ap, ◌⊎◌, inl, inr, Bool, true, false, ◌&&◌, some, List, [],
  ◌∷◌, ◌==◌, if◌then◌else◌, arith, length, All, Bool-cases,
}
use bind_dyndb_ldap_pagure_i.Isc.{nomore, Result, ok, err, Run, returns, blocks, ◌>>=◌}
use bind_dyndb_ldap_pagure_i.Metadata.{Database}
use bind_dyndb_ldap_pagure_i.Metadata.Mldap.{
  Mldap, mldap_generation_get, Iter, dead_loop, mldap_iter_deadnodes_next,
  mldap_iter_deadnodes_start,
}

module _ {Uuid Name : Type 0} (db : Database Uuid Name) (serial_lt : ℕ → ℕ → Bool)
    (mldap : Mldap db) where
  -- The loop of the caller, as the UUIDs that it sees.
  unfoldable pub for_each_dead : ℕ → Run (Result (Uuid × Iter db)) → Run (List Uuid)
  for_each_dead zero found = blocks
  for_each_dead (suc fuel) found = do
    result ← found
    elim result [
      | err r ↦ returns []
      | ok (u, iter) ↦ do
        rest ← for_each_dead fuel (mldap_iter_deadnodes_next db serial_lt mldap iter)
        returns (u ∷ rest)
    ]

  module _ (v : db.Version) (generation : Name → ℕ) (uuid : Name → Uuid) where
    -- A name outside of the subtree of UUIDs, or one of an entry with its generation.
    abbrev pub IsEntry : Name → Type 0
    IsEntry n =
        (db.issubdomain n db.root ≡ false)
        ⊎ ((db.issubdomain n db.root ≡ true)
            × (mldap_generation_get db v n ≡ returns (ok (generation n)))
            × (db.uuid_of n ≡ some (uuid n)))

    abbrev pub is_dead : Name → Bool
    is_dead n = db.issubdomain n db.root && serial_lt (generation n) mldap.generation

    -- The UUIDs of the entries whose generation is before the current one.
    unfoldable pub dead : List Name → List Uuid
    dead [] = []
    dead (n ∷ rest) = let later = dead rest in if is_dead n then uuid n ∷ later else later

    abbrev iter_at : List Name → Iter db
    iter_at left = record { version = v; left = left; ends = nomore; state = mldap.generation }

    -- An entry from an earlier generation is returned, every other name is skipped.
    dead_loop-step :
        (n : Name) (rest left : List Name)
        → IsEntry n
        → dead_loop db serial_lt mldap (iter_at left) (n ∷ rest) ≡ (
            if is_dead n
            then returns (ok (uuid n, iter_at rest))
            else dead_loop db serial_lt mldap (iter_at left) rest)
    unfolding dead_loop
    dead_loop-step n rest left (inl out) = rw out refl
    dead_loop-step n rest left (inr (sub, gen, id)) =
        let same : (mldap.generation == mldap.generation) ≡ true = ground arith in
        elim (Bool-cases (serial_lt (generation n) mldap.generation)) [
          | inl e ↦ rw (sub, gen, same, e, id) refl
          | inr e ↦ rw (sub, gen, same, e) refl
        ]

    from_rest :
        (rest left : List Name) (fuel : ℕ)
        → All IsEntry rest
        → length rest < fuel
        → for_each_dead fuel (dead_loop db serial_lt mldap (iter_at left) rest)
          ≡ returns (dead rest)
    unfolding for_each_dead dead dead_loop mldap_iter_deadnodes_next
    from_rest rest left zero h f = elim f [ ]
    from_rest [] left (suc fuel) h f = refl
    from_rest (n ∷ rest) left (suc fuel) h f = elim (Bool-cases (is_dead n)) [
      | inl e ↦
          let more = from_rest rest rest fuel (h.1) (omega (arith, f)) in
          ap (for_each_dead (suc fuel)) (dead_loop-step n rest left (h.0))
          ∙ rw e (ap (λ m. m >>= λ later. returns (uuid n ∷ later)) more)
      | inr e ↦
          ap (for_each_dead (suc fuel)) (dead_loop-step n rest left (h.0))
          ∙ rw e (from_rest rest left (suc fuel) (h.1) (omega (arith, f)))
    ]

    -- The loop over the dead entries, in a committed version whose names below the root of UUIDs all
    -- have a UUID and a generation, and with an iterator that comes to all names and then gives
    -- ISC_R_NOMORE, ends and sees the UUIDs of exactly those entries whose generation comes before
    -- that of the database, each once and in the order of the database.
    pub for_each_dead_lem :
        (names : List Name)
        → mldap.mdb.current ≡ v
        → db.after v db.root ≡ ok (names, nomore)
        → All IsEntry names
        → for_each_dead (suc (length names)) (mldap_iter_deadnodes_start db serial_lt mldap)
          ≡ returns (dead names)
    unfolding mldap_iter_deadnodes_start mldap_iter_deadnodes_next
    for_each_dead_lem names version behind entries =
        let size : length names < suc (length names) = omega arith in
        let start : mldap_iter_deadnodes_start db serial_lt mldap
            ≡ dead_loop db serial_lt mldap (iter_at names) names =
          started in
        ap (for_each_dead (suc (length names))) start
        ∙ from_rest names names (suc (length names)) entries size
      where
        go :
            (w : db.Version)
            → mldap.mdb.current ≡ w
            → db.after w db.root ≡ ok (names, nomore)
            → mldap_iter_deadnodes_start db serial_lt mldap
              ≡ dead_loop db serial_lt mldap
                  (record { version = w; left = names; ends = nomore; state = mldap.generation })
                  names
        go w e b = ground (arith, e, b)

        started :
            mldap_iter_deadnodes_start db serial_lt mldap
            ≡ dead_loop db serial_lt mldap (iter_at names) names
        started = go v version behind
