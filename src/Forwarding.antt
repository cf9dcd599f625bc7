-- ===== src/Forwarding.antt =====
-- src/fwd.c: forwarding as settings say, in the forwarding table of BIND. `parse` stands for
-- `fwd_parse_str`, which Config has over the parser of the configuration library.
pub mod Config
pub mod Explicit
pub mod Choice
pub mod Table
pub mod Ldap
pub mod Policy
mod Tests
use bind_dyndb_ldap_pagure_i.Prelude.{
  ℕ, ◌≡◌, ◌≢◌, String, Bool, true, false, not, ◌&&◌, Option, none, some, List, [], ◌∷◌, ◌==◌,
  if◌then◌else◌,
}
use bind_dyndb_ldap_pagure_i.Isc.{
  IscResult, success, notfound, is_success, Result, ok, err, Run, returns, aborts, undefined, ◌>>=◌,
}
use bind_dyndb_ldap_pagure_i.Settings.{
  Setting, SettingsSet, Value, value_char, value_uint, value_boolean, setting_find, setting_get_str,
}
use bind_dyndb_ldap_pagure_i.Settings.Sources.{EnumTable, get_enum_value}
use bind_dyndb_ldap_pagure_i.Registers.Rbt.{missing_is_fine}
use bind_dyndb_ldap_pagure_i.EmptyZones.{Zones, empty_zone_handle_conflicts}

-- `dns_fwdpolicy_t`
abbrev pub fwdpolicy_none : ℕ
fwdpolicy_none = 0

abbrev pub fwdpolicy_first : ℕ
fwdpolicy_first = 1

abbrev pub fwdpolicy_only : ℕ
fwdpolicy_only = 2

abbrev pub forwarder_policy_txts : EnumTable
forwarder_policy_txts =
    (fwdpolicy_none, "none") ∷ (fwdpolicy_first, "first") ∷ (fwdpolicy_only, "only") ∷ []

-- `value.value_char` of a setting, where NULL and a value of another type have no meaning.
abbrev pub text_of : Value → Run String
text_of (value_char (some v)) = returns v
text_of _ = undefined

-- `get_enum_value` within INSIST.
abbrev pub policy_of : Result ℕ → Run ℕ
policy_of (ok p) = returns p
policy_of (err r) = aborts

module _ {Forwarder : Type 0} (parse : String → Result (List Forwarder)) where
  abbrev pub has_any : List Forwarder → Bool
  has_any [] = false
  has_any _ = true

  -- The code after `cleanup` in `fwd_setting_isexplicit`, given the last result and the list.
  abbrev pub explicit_list : Result (List Forwarder) → IscResult × Bool
  explicit_list (ok fwdrs) = (success, has_any fwdrs)
  explicit_list (err notfound) = (success, false)
  explicit_list (err r) = (r, false)

  abbrev pub explicit_forwarders : Option (ℕ × Setting) → Run (IscResult × Bool)
  explicit_forwarders none = returns (success, false)
  explicit_forwarders (some (_, s)) = do
    text ← text_of s.value
    returns (explicit_list (parse text))

  abbrev pub explicit_policy : Option (ℕ × Setting) → Option (ℕ × Setting) → Run (IscResult × Bool)
  explicit_policy none forwarders = returns (success, false)
  explicit_policy (some (_, s)) forwarders = do
    text ← text_of s.value
    fwdpolicy ← policy_of (get_enum_value forwarder_policy_txts text)
    if fwdpolicy == fwdpolicy_none then returns (success, true) else explicit_forwarders forwarders

  -- The result and `*isexplicit`.
  unfoldable pub fwd_setting_isexplicit : SettingsSet → Run (IscResult × Bool)
  fwd_setting_isexplicit set =
      explicit_policy (setting_find "forward_policy" (set ∷ []) false true)
        (setting_find "forwarders" (set ∷ []) false true)

  -- The set that was found, with its parents.
  unfoldable pub fwd_setting_find_explicit : List SettingsSet → Run (Result (List SettingsSet))
  fwd_setting_find_explicit [] = returns (err notfound)
  fwd_setting_find_explicit (set ∷ parents) =
      let up = fwd_setting_find_explicit parents in
      fwd_setting_isexplicit set >>= λ (result, isexplicit).
      if is_success result
      then (if isexplicit then returns (ok (set ∷ parents)) else up)
      else returns (err result)

  -- `*isconfigured` and the set that the rest of `fwd_configure_zone` reads.
  abbrev pub inherited :
      List SettingsSet → Result (List SettingsSet) → Result (Bool × List SettingsSet)
  inherited sets (ok found) = ok (true, found)
  inherited sets (err notfound) = ok (false, sets)
  inherited sets (err r) = err r

  unfoldable pub configured_set :
      Bool → SettingsSet → List SettingsSet → Run (Result (Bool × List SettingsSet))
  configured_set is_global_config set parents =
      fwd_setting_isexplicit set >>= λ (result, isconfigured).
      if is_success result
      then (if not isconfigured && is_global_config
          then (fwd_setting_find_explicit (set ∷ parents) >>= λ found.
              returns (inherited (set ∷ parents) found))
          else returns (ok (isconfigured, set ∷ parents)))
      else returns (err result)

  abbrev pub text_or_null : Option String → Run String
  text_or_null none = undefined
  text_or_null (some v) = returns v

  -- The list of forwarders and the policy of a set.
  abbrev pub read_forwarders : ℕ → Result (Option String) → Run (Result (List Forwarder × ℕ))
  read_forwarders fwdpolicy (err r) = returns (err r)
  read_forwarders fwdpolicy (ok text) = text_or_null text >>= λ t.
      returns (elim (parse t) [ ok fwdrs ↦ ok (fwdrs, fwdpolicy) | err r ↦ err r ])

  abbrev pub read_policy :
      Result (Option String) → Result (Option String) → Run (Result (List Forwarder × ℕ))
  read_policy (err r) forwarders = returns (err r)
  read_policy (ok text) forwarders = do
    t ← text_or_null text
    fwdpolicy ← policy_of (get_enum_value forwarder_policy_txts t)
    (if fwdpolicy == fwdpolicy_none
        then returns (ok ([], fwdpolicy))
        else read_forwarders fwdpolicy forwarders)

  unfoldable pub read_config : List SettingsSet → Run (Result (List Forwarder × ℕ))
  read_config sets =
      read_policy (setting_get_str "forward_policy" sets) (setting_get_str "forwarders" sets)

-- The forwarding table of BIND (dns/forward.h), and what is documented of it: what stands for a name.
pub record FwdTable (Name Forwarder : Type 0) : Type 1 where
  pub Table : Type 0
  pub entry : Table → Name → Option (List Forwarder × ℕ)
  pub delete : Table → Name → IscResult × Table
  pub addfwd : Table → Name → List Forwarder → ℕ → IscResult × Table
  -- a deletion that succeeds or finds nothing leaves nothing for the name
  pub delete_gone :
      (t : Table) (n : Name)
      → is_success (missing_is_fine (delete t n).0) ≡ true
      → entry (delete t n).1 n ≡ none
  pub delete_others : (t : Table) (n m : Name) → m ≢ n → entry (delete t n).1 m ≡ entry t m
  pub addfwd_there :
      (t : Table) (n : Name) (l : List Forwarder) (p : ℕ)
      → (addfwd t n l p).0 ≡ success
      → entry (addfwd t n l p).1 n ≡ some (l, p)
  pub addfwd_others :
      (t : Table) (n m : Name) (l : List Forwarder) (p : ℕ)
      → m ≢ n
      → entry (addfwd t n l p).1 m ≡ entry t m

module _ {Name Forwarder Zone ZoneTable : Type 0} (parse : String → Result (List Forwarder))
    (fwd : FwdTable Name Forwarder) (lib : Zones Name Zone ZoneTable) where
  unfoldable pub fwd_delete_table : fwd.Table → Name → IscResult × fwd.Table
  fwd_delete_table t name = let (result, t') = fwd.delete t name in (missing_is_fine result, t')

  -- The table in the view, and the zones in it.
  pub record View : Type 0 where
    pub fwdtable : fwd.Table
    pub zonetable : ZoneTable

  abbrev pub with_zones : fwd.Table → IscResult × ZoneTable → IscResult × View
  with_zones t (result, zt) = (result, record { fwdtable = t; zonetable = zt })

  -- The update of the table, with the forwarders and the policy if any are configured, and the
  -- empty zones after it.
  unfoldable pub update_table : View → Name → Option (List Forwarder × ℕ) → Run (IscResult × View)
  unfolding fwd_delete_table
  update_table view name config =
      let (deleted, t) = fwd_delete_table view.fwdtable name in
      let view' : View = record view { fwdtable = t } in
      if is_success deleted
      then elim config [
        | none ↦ returns (success, view')
        | some (fwdrs, fwdpolicy) ↦
            let (added, t') = fwd.addfwd t name fwdrs fwdpolicy in
            if is_success added
            then (do
              handled ←
                  empty_zone_handle_conflicts lib name view.zonetable (fwdpolicy == fwdpolicy_first)
              returns (with_zones t' handled))
            else returns (added, record view { fwdtable = t' })
      ]
      else returns (deleted, view')

  abbrev pub update_by_config : View → Name → Result (List Forwarder × ℕ) → Run (IscResult × View)
  update_by_config view name (err r) = returns (r, view)
  update_by_config view name (ok config) = update_table view name (some config)

  abbrev pub update_by_set : View → Name → Result (Bool × List SettingsSet) → Run (IscResult × View)
  update_by_set view name (err r) = returns (r, view)
  update_by_set view name (ok (true, sets)) = do
    config ← read_config parse sets
    update_by_config view name config
  update_by_set view name (ok (false, sets)) = update_table view name none

  -- `is_root` is `dns_name_equal(name, dns_rootname)`.
  unfoldable pub fwd_configure_zone :
      SettingsSet → List SettingsSet → View → Bool → Name → Run (IscResult × View)
  unfolding update_table
  fwd_configure_zone set parents view is_root name = do
    configured ← configured_set parse is_root set parents
    update_by_set view name configured
