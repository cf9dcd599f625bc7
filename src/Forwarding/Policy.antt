-- ===== src/Forwarding/Policy.antt =====
-- The forwarding policy in the settings after an LDAP entry has been read.
use bind_dyndb_ldap_pagure_i.Prelude.{
  ℕ, String, ◌≡◌, ◌≢◌, refl, sym, ◌∙◌, subst, inl, inr, Bool, true, false, some, List, [], ◌∷◌,
  arith, set, Option-cases, Bool-cases,
}
use bind_dyndb_ldap_pagure_i.Isc.{
  IscResult, success, ignore, is_success, Result, ok, err, Run, returns, aborts, undefined, blocks,
  ◌>>=◌, Run-cases, Isc,
}
use bind_dyndb_ldap_pagure_i.LdapEntry.{LdapEntry, ldap_entry_getvalues}
use bind_dyndb_ldap_pagure_i.Settings.{
  Setting, SettingsSet, find_in, setting_find, setting_set, setting_unset, clear, type,
}
use bind_dyndb_ldap_pagure_i.Settings.Sources.{setting_update_from_ldap_entry}
use bind_dyndb_ldap_pagure_i.Settings.Find.{find_in-set, find_in-set_ne, find_in_filled}
use bind_dyndb_ldap_pagure_i.Settings.Write.{
  after, find_in_of_Has, set_value_success, set_value_ignore,
}
use bind_dyndb_ldap_pagure_i.Settings.Frame.{set_value-OneChange}
use bind_dyndb_ldap_pagure_i.Forwarding.Ldap.{
  fine, bad_policy, fwd_print_bracketed_values_buf, or_first, store_forwarders, print_forwarders,
  update_forwarders, if_success, after_policy, fwd_parse_ldap,
}

-- The set itself has a value for the name.
abbrev pub Filled : String → SettingsSet → Type 0
Filled n st = (found : ℕ × Setting) × (find_in n true st.first_setting ≡ some found)

set_Filled :
    (isc : Isc) (n v : String) (st st' : SettingsSet) (r : IscResult)
    → fine r ≡ true
    → setting_set isc n st v ≡ returns (r, st')
    → Filled n st'
unfolding setting_set
set_Filled isc n v st st' success f h = elim (Option-cases (setting_find n (st ∷ []) false false)) [
  | inl e ↦ absurd (ground (arith, h, e))
  | inr ((i, s), e) ↦
      let wrote = set_value_success isc st st' i s v (ground (arith, h, e)) in
      let there =
        find_in-set n st.first_setting i s (after isc s v) (find_in_of_Has n st i s e) wrote.3 in
      ((i, after isc s v), ground (arith, wrote, there))
]
set_Filled isc n v st st' ignore f h = elim (Option-cases (setting_find n (st ∷ []) false false)) [
  | inl e ↦ absurd (ground (arith, h, e))
  | inr ((i, s), e) ↦
      let kept = set_value_ignore isc st st' i s v s.value refl (ground (arith, h, e)) in
      let there = find_in_filled n st.first_setting i s (find_in_of_Has n st i s e) in
      ((i, s), ground (arith, kept, there))
]
set_Filled isc n v st st' r f h = absurd (ground (arith, f))

-- Other names are as before.
set_other :
    (isc : Isc) (n m v : String) (st st' : SettingsSet) (r : IscResult)
    → m ≢ n
    → setting_set isc n st v ≡ returns (r, st')
    → find_in m true st'.first_setting ≡ find_in m true st.first_setting
unfolding setting_set
set_other isc n m v st st' r d h = elim (Option-cases (setting_find n (st ∷ []) false false)) [
  | inl e ↦ ground (arith, h, e)
  | inr ((i, s), e) ↦ elim (set_value-OneChange isc st st' i s v r (ground (arith, h, e))) [
    | inl same ↦ rw same refl
    | inr (s', name, w) ↦
        rw w (find_in-set_ne n m true st.first_setting i s s' d (find_in_of_Has n st i s e) name)
  ]
]

clear_name : (s : Setting) → (clear s).name ≡ s.name
unfolding clear type
clear_name s = ground arith

unset_other :
    (n m : String) (st st' : SettingsSet) (r : IscResult)
    → m ≢ n
    → setting_unset n st ≡ returns (r, st')
    → find_in m true st'.first_setting ≡ find_in m true st.first_setting
unfolding setting_unset
unset_other n m st st' r d h = elim (Option-cases (setting_find n (st ∷ []) false false)) [
  | inl e ↦ ground (arith, h, e)
  | inr ((i, s), e) ↦
      let other =
        find_in-set_ne n m true st.first_setting i s (clear s) d (find_in_of_Has n st i s e) in
      ground (arith, h, e, other (clear_name s))
]

find_own :
    (n : String) (st : SettingsSet)
    → setting_find n (st ∷ []) false true ≡ find_in n true st.first_setting
unfolding setting_find
find_own n st = ground arith

policy_ne : ◌≢◌ {A = String} "forward_policy" "forwarders"
policy_ne e = cc

module _ {Forwarder : Type 0} (isc : Isc) (alloc : ℕ → Bool) (allocated : IscResult)
    (parse : String → Result (List Forwarder)) (first : IscResult) (set set' : SettingsSet)
    (r : IscResult) where
  abbrev Same : Type 0
  Same =
      find_in "forward_policy" true set'.first_setting
      ≡ find_in "forward_policy" true set.first_setting

  or_first-Same :
      (m : Run (IscResult × SettingsSet))
      → ((r0 : IscResult) → m ≡ returns (r0, set') → Same)
      → (m >>= λ stored. returns (or_first isc alloc allocated parse first stored))
        ≡ returns (r, set')
      → Same
  or_first-Same (returns (r0, s0)) f h = f r0 (ground (arith, h))
  or_first-Same aborts f h = absurd (ground (arith, h))
  or_first-Same undefined f h = absurd (ground (arith, h))
  or_first-Same blocks f h = absurd (ground (arith, h))

  unset-Same :
      (setting_unset "forwarders" set >>= λ stored.
      returns (or_first isc alloc allocated parse first stored))
        ≡ returns (r, set')
      → Same
  unset-Same =
      or_first-Same (setting_unset "forwarders" set)
        (λ r0 e. unset_other "forwarders" "forward_policy" set set' r0 policy_ne e)

  store-Same :
      (text : String) (fwdrs : Result (List Forwarder))
      → store_forwarders isc alloc allocated parse first set text fwdrs ≡ returns (r, set')
      → Same
  store-Same text (err x) h = ground (arith, h)
  store-Same text (ok []) h = unset-Same h
  store-Same text (ok (x ∷ l)) h =
      or_first-Same (setting_set isc "forwarders" set text)
        (λ r0 e. set_other isc "forwarders" "forward_policy" text set set' r0 policy_ne e) h

  print-Same :
      (printed : Run (Result String))
      → (printed >>= λ p. print_forwarders isc alloc allocated parse first set p)
        ≡ returns (r, set')
      → Same
  print-Same (returns (ok text)) h = store-Same text (parse text) h
  print-Same (returns (err x)) h = ground (arith, h)
  print-Same aborts h = absurd (ground (arith, h))
  print-Same undefined h = absurd (ground (arith, h))
  print-Same blocks h = absurd (ground (arith, h))

  -- Whatever becomes of the forwarders, the policy is as before.
  update_forwarders-Same :
      (values : Result (List String))
      → update_forwarders isc alloc allocated parse first set values ≡ returns (r, set')
      → Same
  unfolding update_forwarders
  update_forwarders-Same (err x) h = unset-Same h
  update_forwarders-Same (ok []) h = unset-Same h
  update_forwarders-Same (ok (v ∷ values)) h =
      print-Same (fwd_print_bracketed_values_buf alloc allocated (v ∷ values)) h

module _ {Forwarder : Type 0} (isc : Isc) (alloc : ℕ → Bool) (allocated : IscResult)
    (parse : String → Result (List Forwarder)) where
  after_policy-Filled :
      (entry : LdapEntry) (first : IscResult) (set set' : SettingsSet) (r : IscResult)
      → fine r ≡ true
      → after_policy isc alloc allocated parse entry (first, set) ≡ returns (r, set')
      → Filled "forward_policy" set'
  after_policy-Filled entry first set set' r f h = elim (Bool-cases (fine first)) [
    | inr e ↦ absurd (ground (arith, f, h, e))
    | inl e ↦ elim (Option-cases (setting_find "forward_policy" (set ∷ []) false true)) [
      | inr (found, g) ↦
          let same =
            update_forwarders-Same isc alloc allocated parse first set set' r values
              (ground (arith, h, e, g)) in
          (found, same ∙ sym (find_own "forward_policy" set) ∙ g)
      | inl g ↦ elim (Run-cases (setting_set isc "forward_policy" set "first")) [
        | inl ((r0, s0), k) ↦ defaulted r0 s0 k (ground (arith, h, e, g, k))
        | inr (inl k) ↦ absurd (ground (arith, h, e, g, k))
        | inr (inr (inl k)) ↦ absurd (ground (arith, h, e, g, k))
        | inr (inr (inr k)) ↦ absurd (ground (arith, h, e, g, k))
      ]
    ]
  ]
    where
      values : Result (List String)
      values = ldap_entry_getvalues entry "idnsForwarders"

      defaulted :
          (r0 : IscResult) (s0 : SettingsSet)
          → setting_set isc "forward_policy" set "first" ≡ returns (r0, s0)
          → if_success isc alloc allocated parse
              (λ s. update_forwarders isc alloc allocated parse first s values)
              (r0, s0)
            ≡ returns (r, set')
          → Filled "forward_policy" set'
      defaulted r0 s0 k h = elim (Bool-cases (is_success r0)) [
        | inl e ↦
            let same =
              update_forwarders-Same isc alloc allocated parse first s0 set' r values
                (ground (arith, h, e)) in
            let (found, there) =
              set_Filled isc "forward_policy" "first" set s0 r0 (ground (arith, e)) k in
            (found, same ∙ there)
        | inr e ↦
            let code : r0 ≡ r = ground (arith, h, e) in
            let last : s0 ≡ set' = ground (arith, h, e) in
            subst (Filled "forward_policy") last
              (set_Filled isc "forward_policy" "first" set s0 r0 (ground (arith, f, code)) k)
      ]

  -- When `fwd_parse_ldap` returns ISC_R_SUCCESS or ISC_R_IGNORE, the set itself has a forwarding
  -- policy, whether the entry has the attribute or not.
  pub fwd_parse_ldap-Filled :
      (entry : LdapEntry) (set set' : SettingsSet) (r : IscResult)
      → fine r ≡ true
      → fwd_parse_ldap isc alloc allocated parse entry set ≡ returns (r, set')
      → Filled "forward_policy" set'
  unfolding fwd_parse_ldap
  fwd_parse_ldap-Filled entry set set' r f h =
      elim (Bool-cases (bad_policy (ldap_entry_getvalues entry "idnsForwardPolicy"))) [
        | inl e ↦ absurd (ground (arith, f, h, e))
        | inr e ↦
            elim (Run-cases
              (setting_update_from_ldap_entry isc "forward_policy" set "idnsForwardPolicy" entry)) [
                | inl ((first, s), g) ↦
                    after_policy-Filled entry first s set' r f (ground (arith, h, e, g))
                | inr (inl g) ↦ absurd (ground (arith, h, e, g))
                | inr (inr (inl g)) ↦ absurd (ground (arith, h, e, g))
                | inr (inr (inr g)) ↦ absurd (ground (arith, h, e, g))
              ]
      ]
