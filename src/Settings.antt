-- ===== src/Settings.antt =====
-- src/settings.c and src/settings.h: named values in sets, which are searched up a chain of parents.
pub mod Sources
pub mod Find
pub mod Resolve
pub mod Write
pub mod Frame
pub mod Entry
pub mod Complete
mod Tests
use Prim.Native.String.{len}
use bind_dyndb_ldap_pagure_i.Prelude.{
  ℕ, zero, suc, ◌+◌, String, Bool, true, false, not, ◌&&◌, ◌||◌, Option, none, some, List, [], ◌∷◌,
  set, get_elem?, ◌==◌, ◌=ₛ◌, if◌then◌else◌,
}
use bind_dyndb_ldap_pagure_i.Isc.{
  IscResult, success, nomemory, notfound, ignore, unexpected, unexpectedend, unexpectedtoken,
  notimplemented, is_success, is_notfound, is_ignore, badnumber, range, Parsed, number, bad_number,
  out_of_range, Result, ok, err, Run, returns, aborts, undefined, ◌>>=◌, ◌>>◌, require, Isc, Mutex,
  null, unlocked, locked, lock, unlock,
}
use bind_dyndb_ldap_pagure_i.Text.{◌=ᵢ◌}

pub data SettingType : Type 0 where
  st_string st_unsigned_integer st_boolean : SettingType

-- The union `value` with its tag `type`; `value_char none` is a NULL pointer.
pub data Value : Type 0 where
  value_char : Option String → Value
  value_uint : ℕ → Value
  value_boolean : Bool → Value

unfoldable pub type : Value → SettingType
type (value_char v) = st_string
type (value_uint v) = st_unsigned_integer
type (value_boolean v) = st_boolean

pub record Setting : Type 0 where
  pub name : String
  pub value : Value
  pub filled : Bool
  pub is_dynamic : Bool

-- The parent pointer is the tail of the list of sets that a search is given.
pub record SettingsSet : Type 0 where
  pub name : String
  pub lock : Mutex
  pub first_setting : List Setting

-- The initialisers of settings.h.
abbrev pub default_string : String → String → Setting
default_string n v = record {
  name = n;
  value = value_char (some v);
  filled = true;
  is_dynamic = false;
}

abbrev pub default_uint : String → ℕ → Setting
default_uint n v = record { name = n; value = value_uint v; filled = true; is_dynamic = false }

abbrev pub default_boolean : String → Bool → Setting
default_boolean n v = record {
  name = n;
  value = value_boolean v;
  filled = true;
  is_dynamic = false;
}

abbrev pub no_default_string : String → Setting
no_default_string n = record {
  name = n;
  value = value_char none;
  filled = false;
  is_dynamic = false;
}

abbrev pub no_default_uint : String → Setting
no_default_uint n = record { name = n; value = value_uint 0; filled = false; is_dynamic = false }

abbrev pub no_default_boolean : String → Setting
no_default_boolean n = record {
  name = n;
  value = value_boolean false;
  filled = false;
  is_dynamic = false;
}

abbrev next_index : Option (ℕ × Setting) → Option (ℕ × Setting)
next_index none = none
next_index (some (i, s)) = some (suc i, s)

-- The inner loop of `setting_find`: the first setting of that name, with its index.
unfoldable pub find_in : String → Bool → List Setting → Option (ℕ × Setting)
find_in n filled_only [] = none
find_in n filled_only (s ∷ rest) =
    let later = next_index (find_in n filled_only rest) in
    if n =ₛ s.name then (if s.filled || not filled_only then some (zero, s) else none) else later

unfoldable pub setting_find : String → List SettingsSet → Bool → Bool → Option (ℕ × Setting)
setting_find n [] recursive filled_only = none
setting_find n (s ∷ parents) recursive filled_only =
    let up = setting_find n parents recursive filled_only in
    elim (find_in n filled_only s.first_setting) [
      | some found ↦ some found
      | none ↦ if recursive then up else none
    ]

abbrev same_type : SettingType → SettingType → Bool
same_type st_string st_string = true
same_type st_unsigned_integer st_unsigned_integer = true
same_type st_boolean st_boolean = true
same_type _ _ = false

unfoldable pub setting_get : String → SettingType → List SettingsSet → Result Value
unfolding type
setting_get n t sets = elim (setting_find n sets true true) [
  | none ↦ err notfound
  | some (_, s) ↦ if same_type (type s.value) t then ok s.value else err unexpected
]

-- The typed getters; the type has been compared, so the last case is not reached.
abbrev as_uint : Result Value → Result ℕ
as_uint (ok (value_uint v)) = ok v
as_uint (ok _) = err unexpected
as_uint (err r) = err r

abbrev as_str : Result Value → Result (Option String)
as_str (ok (value_char v)) = ok v
as_str (ok _) = err unexpected
as_str (err r) = err r

abbrev as_bool : Result Value → Result Bool
as_bool (ok (value_boolean v)) = ok v
as_bool (ok _) = err unexpected
as_bool (err r) = err r

unfoldable pub setting_get_uint : String → List SettingsSet → Result ℕ
setting_get_uint n sets = as_uint (setting_get n st_unsigned_integer sets)

unfoldable pub setting_get_str : String → List SettingsSet → Result (Option String)
setting_get_str n sets = as_str (setting_get n st_string sets)

unfoldable pub setting_get_bool : String → List SettingsSet → Result Bool
setting_get_bool n sets = as_bool (setting_get n st_boolean sets)

-- The words of a boolean value in `set_value`.
unfoldable pub parse_boolean : String → Option Bool
parse_boolean v =
    if v =ᵢ "yes" || v =ᵢ "true"
    then some true
    else if v =ᵢ "no" || v =ᵢ "false"
    then some false
    else none

abbrev bool_eq : Bool → Bool → Bool
bool_eq true b = b
bool_eq false b = not b

abbrev check_uint : Bool → ℕ → Parsed → Result Value
check_uint filled old bad_number = err badnumber
check_uint filled old out_of_range = err range
check_uint filled old (number n) = if filled && old == n then err ignore else ok (value_uint n)

abbrev check_bool : Bool → Bool → Option Bool → Result Value
check_bool filled old none = err unexpectedtoken
check_bool filled old (some b) =
    if filled && bool_eq old b then err ignore else ok (value_boolean b)

-- The first switch of `set_value`, "Check and convert new values": what is to be stored, or the
-- code that the function ends with. `strcmp` of a NULL pointer has no meaning.
unfoldable pub convert : Isc → Bool → Value → String → Run (Result Value)
unfolding parse_boolean
convert isc true (value_char none) v = undefined
convert isc true (value_char (some old)) v =
    returns (if old =ₛ v then err ignore else ok (value_char (some v)))
convert isc false (value_char old) v = returns (ok (value_char (some v)))
convert isc filled (value_uint old) v =
    returns (if v =ₛ "" then err unexpectedend else check_uint filled old (isc.parse_uint32 v))
convert isc filled (value_boolean old) v = returns (check_bool filled old (parse_boolean v))

-- The second switch: the old string is freed before the new one is allocated, and a failed
-- allocation leaves a NULL pointer and `filled` as it was.
unfoldable pub store : Isc → Setting → Value → IscResult × Setting
store isc s (value_char none) = (success, s)
store isc s (value_char (some v)) =
    if isc.alloc (len v + 1)
    then (success, record s { value = value_char (some v); filled = true; is_dynamic = true })
    else (nomemory, record s { value = value_char none })
store isc s v = (success, record s { value = v; filled = true })

abbrev store_at : SettingsSet → ℕ → IscResult × Setting → IscResult × SettingsSet
store_at st i (r, s) = (r, record st { first_setting = set st.first_setting i s })

abbrev finish : Isc → SettingsSet → ℕ → Setting → Result Value → IscResult × SettingsSet
finish isc st i s (err r) = (r, st)
finish isc st i s (ok v) = store_at st i (store isc s v)

abbrev has_lock : Mutex → Bool
has_lock null = false
has_lock _ = true

-- `i` is where the setting `s` stands in the set.
unfoldable pub set_value : Isc → SettingsSet → ℕ → Setting → String → Run (IscResult × SettingsSet)
unfolding convert store
set_value isc st i s value = do
  require (has_lock st.lock)
  m ← lock st.lock
  converted ← convert isc s.filled s.value value
  let (r, st') = finish isc st i s converted
  m' ← unlock m
  returns (r, record st' { lock = m' })

abbrev set_found : Isc → SettingsSet → String → Option (ℕ × Setting) → Run (IscResult × SettingsSet)
set_found isc st value none = returns (notfound, st)
set_found isc st value (some (i, s)) = set_value isc st i s value

unfoldable pub setting_set : Isc → String → SettingsSet → String → Run (IscResult × SettingsSet)
setting_set isc n st value = set_found isc st value (setting_find n (st ∷ []) false false)

-- An unset string keeps its dangling pointer, which nothing reads while `filled` is false.
unfoldable pub clear : Setting → Setting
unfolding type
clear s = elim (type s.value) [
  | st_string ↦ record s { filled = false; is_dynamic = false }
  | _ ↦ record s { filled = false }
]

abbrev unset_found : SettingsSet → Option (ℕ × Setting) → Run (IscResult × SettingsSet)
unset_found st none = do m ← unlock st.lock; returns (notfound, record st { lock = m })
unset_found st (some (i, s)) = if not s.filled then returns (ignore, st) else do
  m ← lock st.lock
  m' ← unlock m
  returns (success, record st { lock = m'; first_setting = set st.first_setting i (clear s) })

-- The jump to `cleanup` when nothing is found skips LOCK and still comes to UNLOCK.
unfoldable pub setting_unset : String → SettingsSet → Run (IscResult × SettingsSet)
unfolding clear
setting_unset n st = unset_found st (setting_find n (st ∷ []) false false)
