-- ===== src/Settings/Complete.antt =====
-- `settings_set_isfilled` and `settings_set_fill`: a complete set, and what is left of one after the
-- configuration has been read.
use bind_dyndb_ldap_pagure_i.Prelude.{
  ℕ, zero, suc, ◌+◌, ◌<◌, String, ◌≡◌, refl, subst, ◌≢◌, ◌↔◌, inl, inr, true, none, some, List, [],
  ◌∷◌, arith, set, get_elem?, length, Bool-cases, Option-cases, All,
}
use bind_dyndb_ldap_pagure_i.Isc.{
  IscResult, success, notfound, ignore, is_success, Result, err, returns, Isc, Run-cases,
  Result-cases,
}
use bind_dyndb_ldap_pagure_i.Settings.{Setting, SettingsSet, setting_find, set_value}
use bind_dyndb_ldap_pagure_i.Settings.Sources.{
  all_found, settings_set_isfilled, fill_from, settings_set_fill,
}
use bind_dyndb_ldap_pagure_i.Settings.Resolve.{Resolves, setting_find-Resolves}
use bind_dyndb_ldap_pagure_i.Settings.Frame.{OneChange, set_value-OneChange}

-- Each setting of the list has a value in the sets.
abbrev pub AllResolve : List SettingsSet → List Setting → Type 0
AllResolve sets = All (λ s. (t : Setting) × Resolves s.name sets t)

all_found-AllResolve :
    (sets : List SettingsSet) (l : List Setting) → all_found sets l ≡ true → AllResolve sets l
unfolding all_found
all_found-AllResolve sets [] h = tt
all_found-AllResolve sets (s ∷ l) h = elim (Option-cases (setting_find s.name sets true true)) [
  | inl e ↦ ground (arith, e)
  | inr ((i, t), e) ↦ (
    (t, (setting_find-Resolves s.name sets t).0 (i, e)),
    all_found-AllResolve sets l (ground (arith, e)),
  )
]

AllResolve-all_found :
    (sets : List SettingsSet) (l : List Setting) → AllResolve sets l → all_found sets l ≡ true
unfolding all_found
AllResolve-all_found sets [] h = refl
AllResolve-all_found sets (s ∷ l) h =
    let (i, e) = (setting_find-Resolves s.name sets h.0.0).1 h.0.1 in
    rw e (AllResolve-all_found sets l h.1)

-- `settings_set_isfilled` is true exactly when each setting of the set has a value in the set
-- or in its parents.
pub settings_set_isfilled_iff :
    (st : SettingsSet) (parents : List SettingsSet)
    → (settings_set_isfilled st parents ≡ true) ↔ AllResolve (st ∷ parents) st.first_setting
unfolding settings_set_isfilled
settings_set_isfilled_iff st parents = (
  all_found-AllResolve (st ∷ parents) st.first_setting,
  AllResolve-all_found (st ∷ parents) st.first_setting,
)

get_elem?-set_lt :
    (l : List Setting) (i k : ℕ) (s : Setting) → i < k → get_elem? (set l i s) k ≡ get_elem? l k
get_elem?-set_lt [] i k s h = refl
get_elem?-set_lt (x ∷ l) zero (suc k) s h = refl
get_elem?-set_lt (x ∷ l) zero zero s h = elim h [ ]
get_elem?-set_lt (x ∷ l) (suc i) zero s h = elim h [ ]
get_elem?-set_lt (x ∷ l) (suc i) (suc k) s h = get_elem?-set_lt l i k s (omega arith)

get_elem?-below :
    (l : List Setting) (i k : ℕ) (s : Setting)
    → i < k
    → get_elem? l k ≡ some s
    → get_elem? l i ≢ none
get_elem?-below [] i k s h e q = cc (e)
get_elem?-below (x ∷ l) zero k s h e q = cc (q)
get_elem?-below (x ∷ l) (suc i) zero s h e q = elim h [ ]
get_elem?-below (x ∷ l) (suc i) (suc k) s h e q = get_elem?-below l i k s (omega arith) e q

get_elem?-OneChange :
    (st st' : SettingsSet) (i k : ℕ) (s t : Setting)
    → i < k
    → OneChange st i s st'
    → get_elem? st.first_setting k ≡ some t
    → get_elem? st'.first_setting k ≡ some t
get_elem?-OneChange st st' i k s t h (inl e) g = rw e g
get_elem?-OneChange st st' i k s t h (inr (s', _, w)) g =
    rw (w, get_elem?-set_lt st.first_setting i k s' h) g

module _ (isc : Isc) (get : String → Result String)
    (fails : (n : String) (r : IscResult) → get n ≡ err r → r ≢ success) (s : Setting)
    (missing : get s.name ≡ err notfound) where
  -- `n + 1` settings are left, the last of which is `s`.
  fill_from-last :
      (n i : ℕ) (result r : IscResult) (st st' : SettingsSet)
      → get_elem? st.first_setting (i + n) ≡ some s
      → fill_from isc get (suc n) i result st ≡ returns (r, st')
      → r ≢ success
  unfolding fill_from
  fill_from-last zero i result r st st' e h p =
      let here : get_elem? st.first_setting i ≡ some s =
        subst (λ k. get_elem? st.first_setting k ≡ some s) (omega arith) e in
      ground (arith, here, missing)
  fill_from-last (suc n) i result r st st' e h p =
      elim (Option-cases (get_elem? st.first_setting i)) [
        | inl q ↦ get_elem?-below st.first_setting i (i + suc n) s (omega arith) e q
        | inr (x, q) ↦ elim (Result-cases (get x.name)) [
          | inl (text, g) ↦ elim (Run-cases (set_value isc st i x text)) [
            | inl ((r', st''), w) ↦
                let e' : get_elem? st''.first_setting (i + 1 + n) ≡ some s =
                  subst (λ k. get_elem? st''.first_setting k ≡ some s) (omega arith)
                    (get_elem?-OneChange st st'' i (i + suc n) x s (omega arith)
                      (set_value-OneChange isc st st'' i x text r' w) e) in
                ground (
                  arith,
                  q,
                  g,
                  w,
                  fill_from-last n (i + 1) success r st'' st' e',
                  fill_from-last n (i + 1) ignore r st'' st' e',
                )
            | inr w ↦ ground (arith, q, g, w)
          ]
          | inr (r', g) ↦
              let e' : get_elem? st.first_setting (i + 1 + n) ≡ some s =
                subst (λ k. get_elem? st.first_setting k ≡ some s) (omega arith) e in
              ground (arith, q, g, fails x.name r' g, fill_from-last n (i + 1) notfound r st st' e')
        ]
      ]

  -- When the last setting of the set is missing from the configuration, `settings_set_fill` never
  -- returns ISC_R_SUCCESS, even if every other setting was there and could be read. It is assumed
  -- that a failing lookup does not give ISC_R_SUCCESS.
  pub settings_set_fill_last_missing :
      (st st' : SettingsSet) (n : ℕ) (r : IscResult)
      → length st.first_setting ≡ suc n
      → get_elem? st.first_setting n ≡ some s
      → settings_set_fill isc get st ≡ returns (r, st')
      → r ≢ success
  unfolding settings_set_fill
  settings_set_fill_last_missing st st' n r len_eq e h p =
      elim (Bool-cases (is_success isc.buffer_allocate)) [
        | inl b ↦
            fill_from-last n 0 isc.buffer_allocate r st st'
              (subst (λ k. get_elem? st.first_setting k ≡ some s) (omega arith) e)
              (rw b at (rw len_eq at h)) p
        | inr b ↦ ground (arith, b)
      ]
