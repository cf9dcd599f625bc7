-- ===== src/SyncPtr/Sent.antt =====
-- When `sync_ptr_init` sends an event.
mod Tests
use bind_dyndb_ldap_pagure_i.Prelude.{
  ℕ, String, ◌+◌, ◌≡◌, refl, sym, ◌∙◌, ap, ◌⊎◌, inl, inr, Bool, true, false, ◌||◌, not, Option,
  Option-cases, none, some, List, [], ◌∷◌, ltb, if◌then◌else◌, arith, Bool-cases,
}
use bind_dyndb_ldap_pagure_i.Isc.{
  IscResult, success, is_success, Result, ok, err, Result-cases, Run, Run-cases, returns, ◌>>=◌,
  require,
}
use bind_dyndb_ldap_pagure_i.Settings.{SettingsSet, setting_get_bool}
use bind_dyndb_ldap_pagure_i.Registers.Rbt.{Rbt}
use bind_dyndb_ldap_pagure_i.Registers.Zones.{ZoneInfo, zr_get_zone_settings}
use bind_dyndb_ldap_pagure_i.SyncPtr.{ModOp, SyncPtrev}
use bind_dyndb_ldap_pagure_i.SyncPtr.Init.{
  Family, Reverse, is_supported, is_partialmatch, Register, Target, managed, active, of_name,
  sync_ptr_find, check_update, sync_ptr_init,
}

returns_same {ℓ κ} :
    {A : Type ℓ} {B : Type κ} {m : Run (A × B)} {a a' : A} {b b' : B}
    → m ≡ returns (a, b)
    → a ≡ a'
    → b ≡ b'
    → m ≡ returns (a', b')
returns_same {a' = a'} {b = b} f e g = f ∙ ap (λ x. returns (x, b)) e ∙ ap (λ y. returns (a', y)) g

module _ {Name Zone Db Rbtdb : Type 0} (rev : Reverse Name Zone)
    (lib : Rbt Name (ZoneInfo Zone (List SettingsSet) Db)) (isabsolute : Name → Bool)
    (getorigin : Zone → Name)
    (create : Zone
      → Option Zone
      → String
      → Option Db
      → Result (ZoneInfo Zone (List SettingsSet) Db))
    (get_rbtdb : Db → Rbtdb) where
  abbrev Reg : Type 0
  Reg = Register rev lib isabsolute getorigin create get_rbtdb

  abbrev look_up : Reg → Zone → Run (IscResult × Option (List SettingsSet) × Reg)
  look_up zr zone =
      zr_get_zone_settings lib isabsolute getorigin create get_rbtdb zr (getorigin zone)

  -- The target that is found: a zone of the zone table that the register has settings for.
  abbrev pub Managed : Reg → Family → String → Name → List SettingsSet → Zone → Reg → Type 0
  Managed zr af ip_str ptr_name settings zone zr' =
      (ip : rev.Address) × (r : IscResult) × (s : IscResult) × (rev.inet_pton af ip_str ≡ some ip)
      × (rev.createptrname ip ≡ ok ptr_name)
      × (rev.zt_find ptr_name ≡ (r, some zone))
      × ((is_success r || is_partialmatch r) ≡ true)
      × (look_up zr zone ≡ returns (s, some settings, zr'))
      × (is_success s ≡ true)

  check_update_ok :
      (a_name : Name) (mod_op : ModOp) (ttl : ℕ)
      (target : Result (Target rev lib isabsolute getorigin create get_rbtdb)) (ev : SyncPtrev Name)
      (zone : Zone)
      → check_update rev lib isabsolute getorigin create get_rbtdb a_name mod_op ttl target
        ≡ ok (ev, zone)
      → (settings : List SettingsSet) × (target ≡ ok (ev.ptr_name, settings, zone))
        × (setting_get_bool "dyn_update" settings ≡ ok true)
        × (ev.a_name ≡ a_name)
        × (ev.mod_op ≡ mod_op)
        × (ev.ttl ≡ ttl)
  check_update_ok a_name mod_op ttl (err r) ev zone h = absurd (ground (arith, h))
  check_update_ok a_name mod_op ttl (ok (p, s, z)) ev zone h =
      elim (Result-cases (setting_get_bool "dyn_update" s)) [
        | inr (r, e) ↦ absurd (ground (arith, h, e))
        | inl (true, e) ↦
            let event : SyncPtrev Name = record {
              a_name = a_name;
              ptr_name = p;
              mod_op = mod_op;
              ttl = ttl;
            } in
            let sent : SyncPtrev Name × Zone = (event, z) in
            let pair : sent ≡ (ev, zone) = ground (arith, h, e) in
            (
              s,
              ap (λ w. ok (w.0.ptr_name, s, w.1)) pair,
              e,
              sym (ap (λ w. w.0.a_name) pair),
              sym (ap (λ w. w.0.mod_op) pair),
              sym (ap (λ w. w.0.ttl) pair),
            )
        | inl (false, e) ↦ absurd (ground (arith, h, e))
      ]

  managed_ok :
      (name ptr_name : Name) (zone z : Zone) (settings : List SettingsSet)
      (found : IscResult × Option (List SettingsSet) × Reg) (zr' : Reg)
      → managed rev lib isabsolute getorigin create get_rbtdb name z found
        ≡ (ok (ptr_name, settings, zone), zr')
      → (name ≡ ptr_name)
        × (z ≡ zone)
        × (s : IscResult) × (found ≡ (s, some settings, zr'))
        × (is_success s ≡ true)
  managed_ok name ptr_name zone z settings (r, none, zr) zr' h = absurd (ground (arith, h))
  managed_ok name ptr_name zone z settings (r, some x, zr) zr' h =
      elim (Bool-cases (is_success r)) [
        | inr e ↦ absurd (ground (arith, h, e))
        | inl e ↦ (ground (arith, h, e), ground (arith, h, e), r, ground (arith, h, e), e)
      ]

  active_ok :
      (name ptr_name : Name) (zone : Zone) (settings : List SettingsSet) (zr zr' : Reg)
      (r : IscResult) (found : Option Zone)
      → active rev lib isabsolute getorigin create get_rbtdb name zr (r, found)
        ≡ returns (ok (ptr_name, settings, zone), zr')
      → (name ≡ ptr_name)
        × (found ≡ some zone)
        × ((is_success r || is_partialmatch r) ≡ true)
        × (s : IscResult) × (look_up zr zone ≡ returns (s, some settings, zr'))
        × (is_success s ≡ true)
  active_ok name ptr_name zone settings zr zr' r none h = absurd (ground (arith, h))
  active_ok name ptr_name zone settings zr zr' r (some z) h =
      elim (Bool-cases (is_success r || is_partialmatch r)) [
        | inr e ↦ absurd (ground (arith, h, e))
        | inl e ↦ elim (Run-cases (look_up zr z)) [
          | inl (o, f) ↦
              let (n, same, s, value, fine) =
                managed_ok name ptr_name zone z settings o zr' (ground (arith, h, e, f)) in
              (n, ap some same, e, s, sym (ap (look_up zr) same) ∙ f ∙ ap returns value, fine)
          | inr (inl f) ↦ absurd (ground (arith, h, e, f))
          | inr (inr (inl f)) ↦ absurd (ground (arith, h, e, f))
          | inr (inr (inr f)) ↦ absurd (ground (arith, h, e, f))
        ]
      ]

  sync_ptr_find-Managed :
      (zr zr' : Reg) (af : Family) (ip_str : String) (ptr_name : Name) (settings : List SettingsSet)
      (zone : Zone)
      → sync_ptr_find rev lib isabsolute getorigin create get_rbtdb zr af ip_str
        ≡ returns (ok (ptr_name, settings, zone), zr')
      → Managed zr af ip_str ptr_name settings zone zr'
  unfolding sync_ptr_find
  sync_ptr_find-Managed zr zr' af ip_str ptr_name settings zone h =
      elim (Option-cases (rev.inet_pton af ip_str)) [
        | inl e ↦ absurd (ground (arith, h, e))
        | inr (ip, e) ↦ elim (Bool-cases (is_supported af)) [
          | inr f ↦ absurd (ground (arith, h, e, f))
          | inl f ↦ elim (Result-cases (rev.createptrname ip)) [
            | inr (r, g) ↦ absurd (ground (arith, h, e, f, g))
            | inl (name, g) ↦
                let (r, oz) = rev.zt_find name in
                let (n, is_z, fine, s, value, k) =
                  active_ok name ptr_name zone settings zr zr' r oz (ground (arith, h, e, f, g)) in
                (
                  ip,
                  r,
                  s,
                  e,
                  g ∙ ap ok n,
                  sym (ap rev.zt_find n) ∙ ap (λ x. (r, x)) is_z,
                  fine,
                  value,
                  k,
                )
          ]
        ]
      ]

  -- An event that `sync_ptr_init` sends carries the name of the record, the operation and the time to
  -- live that it was given and the PTR name of the address; it goes to a zone that covers that name
  -- in the zone table, that the register of zones knows, and whose settings allow dynamic updates.
  pub sync_ptr_init-Managed :
      (zr zr' : Reg) (a_name : Name) (af : Family) (ip_str : String) (ttl : ℕ) (mod_op : ModOp)
      (ev : SyncPtrev Name) (zone : Zone)
      → sync_ptr_init rev lib isabsolute getorigin create get_rbtdb zr a_name af ip_str ttl mod_op
        ≡ returns (ok (ev, zone), zr')
      → (ev.a_name ≡ a_name)
        × (ev.mod_op ≡ mod_op)
        × (ev.ttl ≡ ttl)
        × (settings : List SettingsSet) × Managed zr af ip_str ev.ptr_name settings zone zr'
        × (setting_get_bool "dyn_update" settings ≡ ok true)
  unfolding sync_ptr_init
  sync_ptr_init-Managed zr zr' a_name af ip_str ttl mod_op ev zone h =
      let find = sync_ptr_find rev lib isabsolute getorigin create get_rbtdb zr af ip_str in
      elim (Run-cases find) [
        | inl ((target, zr''), f) ↦
            let same : zr'' ≡ zr' = ground (arith, h, f) in
            let (settings, is_target, dyn, a, m, l) =
              check_update_ok a_name mod_op ttl target ev zone (ground (arith, h, f)) in
            (
              a,
              m,
              l,
              settings,
              sync_ptr_find-Managed zr zr' af ip_str ev.ptr_name settings zone
                  (returns_same f is_target same),
              dyn,
            )
        | inr (inl f) ↦ absurd (ground (arith, h, f))
        | inr (inr (inl f)) ↦ absurd (ground (arith, h, f))
        | inr (inr (inr f)) ↦ absurd (ground (arith, h, f))
      ]
