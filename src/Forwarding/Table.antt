-- ===== src/Forwarding/Table.antt =====
-- What `fwd_configure_zone` leaves in the forwarding table.
use bind_dyndb_ldap_pagure_i.Prelude.{
  ℕ, ◌≡◌, ◌≢◌, sym, ◌∙◌, ap, inl, inr, String, Bool, true, false, Option, none, some, List, [], ◌∷◌,
  ◌==◌, arith, Bool-cases,
}
use bind_dyndb_ldap_pagure_i.Isc.{
  IscResult, success, is_success, Result, ok, err, returns, ◌>>=◌, Run-cases,
}
use bind_dyndb_ldap_pagure_i.Settings.{SettingsSet}
use bind_dyndb_ldap_pagure_i.Registers.Rbt.{missing_is_fine}
use bind_dyndb_ldap_pagure_i.EmptyZones.{Zones, empty_zone_handle_conflicts}
use bind_dyndb_ldap_pagure_i.Forwarding.{
  fwdpolicy_first, configured_set, FwdTable, fwd_delete_table, View, update_table, update_by_config,
  update_by_set, fwd_configure_zone,
}
use bind_dyndb_ldap_pagure_i.Forwarding.Explicit.{read_config_lem}
use bind_dyndb_ldap_pagure_i.Forwarding.Choice.{wanted, Chooses, configured_set_lem}

is_success_sound : (r : IscResult) → is_success r ≡ true → r ≡ success
is_success_sound r h = ground (arith, h)

module _ {Name Forwarder Zone ZoneTable : Type 0} (parse : String → Result (List Forwarder))
    (fwd : FwdTable Name Forwarder) (lib : Zones Name Zone ZoneTable)
    (view view' : View parse fwd lib) (name m : Name) (other : m ≢ name) where
  -- The table has this for the name, and for another name what it had.
  abbrev pub Forwards : Option (List Forwarder × ℕ) → Type 0
  Forwards c =
      (fwd.entry view'.fwdtable name ≡ c) × (fwd.entry view'.fwdtable m ≡ fwd.entry view.fwdtable m)

  abbrev deleted : fwd.Table
  deleted = (fwd.delete view.fwdtable name).1

  abbrev deletes : Bool
  deletes = is_success (missing_is_fine (fwd.delete view.fwdtable name).0)

  cleared_lem :
      deletes ≡ true
      → (fwd.entry deleted name ≡ none) × (fwd.entry deleted m ≡ fwd.entry view.fwdtable m)
  cleared_lem e =
      (fwd.delete_gone view.fwdtable name e, fwd.delete_others view.fwdtable name m other)

  added_lem :
      (l : List Forwarder) (p : ℕ)
      → deletes ≡ true
      → is_success (fwd.addfwd deleted name l p).0 ≡ true
      → (fwd.entry (fwd.addfwd deleted name l p).1 name ≡ some (l, p))
        × (fwd.entry (fwd.addfwd deleted name l p).1 m ≡ fwd.entry view.fwdtable m)
  added_lem l p e f = (
    fwd.addfwd_there deleted name l p (is_success_sound (fwd.addfwd deleted name l p).0 f),
    fwd.addfwd_others deleted name m l p other ∙ (cleared_lem e).1,
  )

  update_table_lem :
      (c : Option (List Forwarder × ℕ))
      → update_table parse fwd lib view name c ≡ returns (success, view')
      → Forwards c
  unfolding update_table fwd_delete_table
  update_table_lem none h = elim (Bool-cases deletes) [
    | inr e ↦ absurd (ground (arith, h, e))
    | inl e ↦ ground (arith, h, e, cleared_lem e)
  ]
  update_table_lem (some (l, p)) h = elim (Bool-cases deletes) [
    | inr e ↦ absurd (ground (arith, h, e))
    | inl e ↦ elim (Bool-cases (is_success (fwd.addfwd deleted name l p).0)) [
      | inr f ↦ absurd (ground (arith, h, e, f))
      | inl f ↦
          elim (Run-cases
            (empty_zone_handle_conflicts lib name view.zonetable (p == fwdpolicy_first))) [
              | inl ((r, zt), g) ↦ ground (arith, h, e, f, g, added_lem l p e f)
              | inr (inl g) ↦ absurd (ground (arith, h, e, f, g))
              | inr (inr (inl g)) ↦ absurd (ground (arith, h, e, f, g))
              | inr (inr (inr g)) ↦ absurd (ground (arith, h, e, f, g))
            ]
    ]
  ]

  update_by_set_lem :
      (c : Option (List Forwarder × ℕ)) (chosen : Result (Bool × List SettingsSet))
      → Chooses parse c chosen
      → update_by_set parse fwd lib view name chosen ≡ returns (success, view')
      → Forwards c
  update_by_set_lem c (err r) f h = absurd (ground (arith, f, h))
  update_by_set_lem c (ok (true, [])) f h = absurd f
  update_by_set_lem c (ok (false, sets)) f h = rw f (update_table_lem none h)
  update_by_set_lem none (ok (true, s ∷ ss)) f h = absurd (ground (arith, f))
  update_by_set_lem (some k) (ok (true, s ∷ ss)) f h =
      let read = read_config_lem parse s ss k f.1 in
      update_table_lem (some k)
        (sym (ap (λ m. m >>= λ c. update_by_config parse fwd lib view name c) read) ∙ h)

  -- When `fwd_configure_zone` succeeds, the forwarding table has for the name exactly what the
  -- settings ask for: for the root the configuration of the nearest set that has an explicit one, for
  -- every other name the explicit configuration of its own set, and nothing if there is none. What the
  -- table has for every other name is as before.
  pub fwd_configure_zone_lem :
      (set : SettingsSet) (parents : List SettingsSet) (is_root : Bool)
      → fwd_configure_zone parse fwd lib set parents view is_root name ≡ returns (success, view')
      → Forwards (wanted parse is_root set parents)
  unfolding fwd_configure_zone
  fwd_configure_zone_lem set parents is_root h =
      elim (Run-cases (configured_set parse is_root set parents)) [
        | inl (chosen, e) ↦
            update_by_set_lem (wanted parse is_root set parents) chosen
              (configured_set_lem parse is_root set parents chosen e) (ground (arith, h, e))
        | inr (inl e) ↦ absurd (ground (arith, h, e))
        | inr (inr (inl e)) ↦ absurd (ground (arith, h, e))
        | inr (inr (inr e)) ↦ absurd (ground (arith, h, e))
      ]
