-- ===== src/Settings/Frame.antt =====
-- What `setting_set` and `setting_unset` leave alone, when they return at all, and what an unset
-- setting gives way to.
use bind_dyndb_ldap_pagure_i.Prelude.{
  ℕ, zero, suc, String, ◌≡◌, refl, ◌∙◌, ◌≢◌, ◌⊎◌, inl, inr, Bool, true, false, none, some, List, [],
  ◌∷◌, arith, eq_iff, set, Option-cases, ap, All,
}
use bind_dyndb_ldap_pagure_i.Isc.{
  IscResult, success, nomemory, notfound, Result, ok, returns, Isc, unlocked,
}
use bind_dyndb_ldap_pagure_i.Settings.{
  Setting, SettingsSet, SettingType, st_string, st_unsigned_integer, st_boolean, Value, value_char,
  value_uint, value_boolean, type, convert, find_in, setting_find, setting_get, set_value,
  setting_set, clear, setting_unset, finish,
}
use bind_dyndb_ldap_pagure_i.Settings.Find.{find_in-set, find_in-set_ne, find_in_filled}
use bind_dyndb_ldap_pagure_i.Settings.Write.{
  after, Has, find_in_of_Has, setting_get_by_find, set_value_success, set_value_error,
  set_value_nomemory, meaning,
}

-- A write: the set is as it was, or one setting has been exchanged for one of the same name.
abbrev pub OneChange : SettingsSet → ℕ → Setting → SettingsSet → Type 0
OneChange st i s st' =
    (st' ≡ st)
    ⊎ ((s' : Setting) × (s'.name ≡ s.name) × (st'.first_setting ≡ set st.first_setting i s'))

pub OneChange-get :
    (n m : String) (t : SettingType) (st st' : SettingsSet) (parents : List SettingsSet) (i : ℕ)
    (s : Setting)
    → m ≢ n
    → Has n st i s
    → OneChange st i s st'
    → setting_get m t (st' ∷ parents) ≡ setting_get m t (st ∷ parents)
OneChange-get n m t st st' parents i s d has (inl e) = rw e
OneChange-get n m t st st' parents i s d has (inr (s', e, w)) =
    setting_get_by_find m t st st' parents
      (rw w (find_in-set_ne n m true st.first_setting i s s' d (find_in_of_Has n st i s has) e))

pub set_value-OneChange :
    (isc : Isc) (st st' : SettingsSet) (i : ℕ) (s : Setting) (v : String) (r : IscResult)
    → set_value isc st i s v ≡ returns (r, st')
    → OneChange st i s st'
set_value-OneChange isc st st' i s v success h =
    let wrote = set_value_success isc st st' i s v h in
    inr (after isc s v, wrote.3, ground (arith, wrote.0))
set_value-OneChange isc st st' i s v nomemory h = inr (
  record s { value = value_char none },
  refl,
  ground (arith, set_value_nomemory isc st st' i s v h),
)
set_value-OneChange isc st st' i s v r h =
    inl (set_value_error isc st st' i s v r (λ e. cc) (λ e. cc) h)

-- Whatever `setting_set` returns, errors included, the search for any other name is as before.
pub setting_set-get_ne :
    (isc : Isc) (n m v : String) (t : SettingType) (st st' : SettingsSet) (r : IscResult)
    (parents : List SettingsSet)
    → m ≢ n
    → setting_set isc n st v ≡ returns (r, st')
    → setting_get m t (st' ∷ parents) ≡ setting_get m t (st ∷ parents)
unfolding setting_set
setting_set-get_ne isc n m v t st st' r parents d h =
    elim (Option-cases (setting_find n (st ∷ []) false false)) [
      | inl e ↦ let same : st' ≡ st = ground (arith, e) in rw same refl
      | inr ((i, s), e) ↦
          OneChange-get n m t st st' parents i s d e
            (set_value-OneChange isc st st' i s v r (ground (arith, e)))
    ]

-- A failing `setting_set` leaves the set as it was, unless memory ran out. Then the setting has
-- lost its old string and holds a NULL pointer, though it counts as filled if it did before.
pub setting_set_failed :
    (isc : Isc) (n v : String) (st st' : SettingsSet) (r : IscResult)
    → r ≢ success
    → setting_set isc n st v ≡ returns (r, st')
    → ((r ≢ nomemory) × (st' ≡ st))
      ⊎ ((r ≡ nomemory)
          × ((i : ℕ) × (s : Setting) × Has n st i s
              × (st'.first_setting
                  ≡ set st.first_setting i (record s { value = value_char none }))))
unfolding setting_set
setting_set_failed isc n v st st' success p h = absurd (p refl)
setting_set_failed isc n v st st' nomemory p h =
    elim (Option-cases (setting_find n (st ∷ []) false false)) [
      | inl e ↦ cc (e, h)
      | inr ((i, s), e) ↦ inr (
        refl,
        (i, s, e, ground (arith, e, set_value_nomemory isc st st' i s v (ground (arith, e)))),
      )
    ]
setting_set_failed isc n v st st' r p h =
    elim (Option-cases (setting_find n (st ∷ []) false false)) [
      | inl e ↦ inl ((λ q. cc), ground (arith, e))
      | inr ((i, s), e) ↦
          inl ((λ q. cc), set_value_error isc st st' i s v r p (λ q. cc) (ground (arith, e)))
    ]

-- A setting that is not filled hides nothing: after `setting_unset` of a name that the set has, the
-- search for it that starts at the set goes to the parents.
pub setting_unset-get :
    (n : String) (t : SettingType) (st st' : SettingsSet) (r : IscResult)
    (parents : List SettingsSet) (i : ℕ) (s : Setting)
    → Has n st i s
    → setting_unset n st ≡ returns (r, st')
    → setting_get n t (st' ∷ parents) ≡ setting_get n t parents
unfolding setting_unset setting_get setting_find
setting_unset-get n t st st' r parents i s has h =
    let found = find_in_of_Has n st i s has in
    let cleared = find_in-set n st.first_setting i s (clear s) found (ground arith) in
    ground (arith, cleared, find_in_filled n st.first_setting i s found)

-- `setting_unset` of a name that the set has leaves the typed search for any other name as it was.
pub setting_unset-get_ne :
    (n m : String) (t : SettingType) (st st' : SettingsSet) (r : IscResult)
    (parents : List SettingsSet) (i : ℕ) (s : Setting)
    → m ≢ n
    → Has n st i s
    → setting_unset n st ≡ returns (r, st')
    → setting_get m t (st' ∷ parents) ≡ setting_get m t (st ∷ parents)
unfolding setting_unset setting_get setting_find
setting_unset-get_ne n m t st st' r parents i s d has h =
    let found = find_in_of_Has n st i s has in
    ground (arith, find_in-set_ne n m true st.first_setting i s (clear s) d found (ground arith))

-- Every filled string is there.
abbrev pub IsSound : Setting → Type 0
IsSound s = s.value ≡ value_char none → s.filled ≡ false

abbrev pub IsValid : SettingsSet → Type 0
IsValid st = All IsSound st.first_setting

All-set :
    (l : List Setting) (i : ℕ) (s : Setting) → All IsSound l → IsSound s → All IsSound (set l i s)
All-set [] i s h p = tt
All-set (x ∷ l) zero s h p = (p, h.1)
All-set (x ∷ l) (suc i) s h p = (h.0, All-set l i s h.1 p)

All-find :
    (n : String) (l : List Setting) (i : ℕ) (s : Setting)
    → All IsSound l
    → find_in n false l ≡ some (i, s)
    → IsSound s
unfolding find_in
All-find n [] i s h e = cc
All-find n (x ∷ l) zero s h e = ground (arith, h.0, eq_iff n x.name)
All-find n (x ∷ l) (suc i) s h e = All-find n l i s h.1 (ground arith)

convert_returns :
    (isc : Isc) (filled : Bool) (old : Value) (v : String)
    → (old ≡ value_char none → filled ≡ false)
    → (c : Result Value) × (convert isc filled old v ≡ returns c)
unfolding convert
convert_returns isc true (value_char none) v h = cc (h refl)
convert_returns isc true (value_char (some old)) v h = (_, refl)
convert_returns isc false (value_char old) v h = (_, refl)
convert_returns isc true (value_uint old) v h = (_, refl)
convert_returns isc false (value_uint old) v h = (_, refl)
convert_returns isc true (value_boolean old) v h = (_, refl)
convert_returns isc false (value_boolean old) v h = (_, refl)

set_value_returns :
    (isc : Isc) (st : SettingsSet) (i : ℕ) (s : Setting) (v : String)
    → st.lock ≡ unlocked
    → IsSound s
    → (r : IscResult) × (st' : SettingsSet) × (set_value isc st i s v ≡ returns (r, st'))
      × (st'.lock ≡ unlocked)
unfolding set_value
set_value_returns isc st i s v u h =
    let (c, e) = convert_returns isc s.filled s.value v h in
    ((finish isc st i s c).0, record (finish isc st i s c).1 { lock = unlocked }, rw (u, e), refl)

meaning-ne-none :
    (isc : Isc) (t : SettingType) (v : String) → meaning isc t v ≢ ok (value_char none)
meaning-ne-none isc st_string v h = cc
meaning-ne-none isc st_unsigned_integer v h = ground arith
meaning-ne-none isc st_boolean v h = ground arith

set_value-IsValid :
    (isc : Isc) (st st' : SettingsSet) (i : ℕ) (s : Setting) (v : String) (r : IscResult)
    → IsValid st
    → set_value isc st i s v ≡ returns (r, st')
    → r ≢ nomemory
    → IsValid st'
set_value-IsValid isc st st' i s v success valid h p =
    let wrote = set_value_success isc st st' i s v h in
    let w : st'.first_setting ≡ set st.first_setting i (after isc s v) = ground (arith, wrote.0) in
    rw w (
      All-set st.first_setting i (after isc s v) valid
        (λ e. absurd (meaning-ne-none isc (type s.value) v (wrote.1 ∙ ap ok e))))
set_value-IsValid isc st st' i s v nomemory valid h p = absurd (p refl)
set_value-IsValid isc st st' i s v r valid h p =
    let same : st' ≡ st = set_value_error isc st st' i s v r (λ e. cc) p h in rw same valid

nomemory_or : (r : IscResult) (P : Type 0) → (r ≢ nomemory → P) → (r ≡ nomemory) ⊎ P
nomemory_or nomemory P f = inl refl
nomemory_or _ P f = inr (f (λ e. cc))

-- On a free lock and a set whose filled strings are all there, `setting_set` returns, whatever
-- the name and the text; the lock is free again, and unless memory ran out the strings are there.
pub setting_set_total :
    (isc : Isc) (n v : String) (st : SettingsSet)
    → st.lock ≡ unlocked
    → IsValid st
    → (r : IscResult) × (st' : SettingsSet) × (setting_set isc n st v ≡ returns (r, st'))
      × (st'.lock ≡ unlocked)
      × ((r ≡ nomemory) ⊎ IsValid st')
unfolding setting_set
setting_set_total isc n v st u valid = elim (Option-cases (setting_find n (st ∷ []) false false)) [
  | inl e ↦ (notfound, st, rw e, u, inr valid)
  | inr ((i, s), e) ↦
      let sound = All-find n st.first_setting i s valid (find_in_of_Has n st i s e) in
      let (r, st', h, free) = set_value_returns isc st i s v u sound in
      let kept = set_value-IsValid isc st st' i s v r valid h in
      (r, st', rw e h, free, nomemory_or r (IsValid st') kept)
]
