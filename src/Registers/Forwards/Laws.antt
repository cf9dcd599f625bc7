-- ===== src/Registers/Forwards/Laws.antt =====
-- The forwarding register of src/fwd_register.c as a set of names.
use bind_dyndb_ldap_pagure_i.Prelude.{
  ◌≡◌, ◌≢◌, refl, ◌∙◌, ◌⊎◌, inl, inr, Bool, true, none, some, Option-cases,
}
use bind_dyndb_ldap_pagure_i.Isc.{IscResult, success, notfound, nomemory, exists, returns, unlocked}
use bind_dyndb_ldap_pagure_i.Registers.Rbt.{Rbt, missing_is_fine}
use bind_dyndb_ldap_pagure_i.Registers.Forwards.{
  FwdRegister, fwdr_add_zone, fwdr_del_zone, fwdr_zone_ispresent,
}

module _ {Name : Type 0} (lib : Rbt Name (Unit {0})) (isabsolute : Name → Bool) where
  -- The register with a tree and its lock not held.
  abbrev pub free : lib.Tree → FwdRegister lib isabsolute
  free t = record { rwlock = unlocked; rbt = t }

  present :
      (t : lib.Tree) (n : Name)
      → isabsolute n ≡ true
      → lib.entry t n ≡ some tt
      → fwdr_zone_ispresent lib isabsolute (free t) n ≡ returns (success, free t)
  unfolding fwdr_zone_ispresent
  present t n h e = rw (h, lib.findname_exact t n tt e) refl

  absent :
      (t : lib.Tree) (n : Name)
      → isabsolute n ≡ true
      → lib.entry t n ≡ none
      → fwdr_zone_ispresent lib isabsolute (free t) n ≡ returns (notfound, free t)
  unfolding fwdr_zone_ispresent
  absent t n h e = elim (lib.findname_missing t n e) [
    | inl r ↦ rw (h, r) refl
    | inr r ↦ rw (h, r) refl
  ]

  -- The name is present in both free registers or in none of them.
  abbrev pub Agree : lib.Tree → lib.Tree → Name → Type 0
  Agree t' t m =
      (r : IscResult) × (fwdr_zone_ispresent lib isabsolute (free t') m ≡ returns (r, free t'))
      × (fwdr_zone_ispresent lib isabsolute (free t) m ≡ returns (r, free t))

  same_entry :
      (t' t : lib.Tree) (m : Name)
      → isabsolute m ≡ true
      → lib.entry t' m ≡ lib.entry t m
      → Agree t' t m
  same_entry t' t m h e = elim (Option-cases (lib.entry t m)) [
    | inl r ↦ (notfound, absent t' m h (e ∙ r), absent t m h r)
    | inr (u, r) ↦ (success, present t' m h (e ∙ r), present t m h r)
  ]

  -- On an absolute name and a free register, `fwdr_add_zone` leaves the lock free, and it fails with
  -- ISC_R_EXISTS on a name that is present, or with ISC_R_NOMEMORY, in both cases changing nothing,
  -- or it succeeds on a name that was not present, after which the name is present.
  pub fwdr_add_zone_lem :
      (t : lib.Tree) (n : Name)
      → isabsolute n ≡ true
      → ((fwdr_zone_ispresent lib isabsolute (free t) n ≡ returns (success, free t))
          × (fwdr_add_zone lib isabsolute (free t) n ≡ returns (exists, free t)))
        ⊎ (fwdr_add_zone lib isabsolute (free t) n ≡ returns (nomemory, free t))
        ⊎ ((fwdr_zone_ispresent lib isabsolute (free t) n ≡ returns (notfound, free t))
            × ((t' : lib.Tree) × (fwdr_add_zone lib isabsolute (free t) n
                  ≡ returns (success, free t'))
                × (fwdr_zone_ispresent lib isabsolute (free t') n ≡ returns (success, free t'))))
  unfolding fwdr_add_zone
  fwdr_add_zone_lem t n h = elim (Option-cases (lib.entry t n)) [
    | inr (u, e) ↦ inl (present t n h e, rw (h, lib.addname_exists t n u tt e) refl)
    | inl e ↦ elim (lib.addname_new t n tt e) [
      | inl r ↦ inr (inl (rw (h, r) refl))
      | inr (r, v) ↦
          let t' = (lib.addname t n tt).1 in
          inr (inr (absent t n h e, (t', rw (h, r) refl, present t' n h v)))
    ]
  ]

  -- On an absolute name and a free register, `fwdr_del_zone` succeeds and leaves the lock free,
  -- whether the name was present or not; after it the name is not present.
  pub fwdr_del_zone_lem :
      (t : lib.Tree) (n : Name)
      → isabsolute n ≡ true
      → (t' : lib.Tree) × (fwdr_del_zone lib isabsolute (free t) n ≡ returns (success, free t'))
        × (fwdr_zone_ispresent lib isabsolute (free t') n ≡ returns (notfound, free t'))
  unfolding fwdr_del_zone
  fwdr_del_zone_lem t n h =
      let t' = (lib.deletename t n).1 in
      elim (Option-cases (lib.entry t n)) [
        | inl e ↦
            let r = lib.deletename_missing t n e in
            let gone : lib.entry t' n ≡ none = rw r e in (t', rw (h, r) refl, absent t' n h gone)
        | inr (u, e) ↦
            let r = lib.deletename_exact t n u e in (t', rw (h, r.0) refl, absent t' n h (r.1))
      ]

  -- Neither adding nor deleting an absolute name in a free register changes whether another absolute
  -- name is present, whatever the result is.
  pub fwdr_others :
      (t : lib.Tree) (n m : Name)
      → isabsolute n ≡ true
      → isabsolute m ≡ true
      → m ≢ n
      → ((r : IscResult) × (t' : lib.Tree) × (fwdr_add_zone lib isabsolute (free t) n
            ≡ returns (r, free t'))
          × Agree t' t m)
        × ((r : IscResult) × (t' : lib.Tree) × (fwdr_del_zone lib isabsolute (free t) n
              ≡ returns (r, free t'))
            × Agree t' t m)
  unfolding fwdr_add_zone fwdr_del_zone
  fwdr_others t n m h k d =
      let t1 = (lib.addname t n tt).1 in
      let t2 = (lib.deletename t n).1 in
      (
        (
          (lib.addname t n tt).0,
          t1,
          rw h refl,
          same_entry t1 t m k (lib.addname_others t n m tt d),
        ),
        (
          missing_is_fine ((lib.deletename t n).0),
          t2,
          rw h refl,
          same_entry t2 t m k (lib.deletename_others t n m d),
        ),
      )
