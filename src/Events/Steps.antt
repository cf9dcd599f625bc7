-- ===== src/Events/Steps.antt =====
-- What a CHECK and the use of a found entry keep.
use bind_dyndb_ldap_pagure_i.Prelude.{
  ◌≡◌, refl, inl, inr, Bool, Bool-cases, true, false, if◌then◌else◌,
}
use bind_dyndb_ldap_pagure_i.Isc.{
  IscResult, is_success, Result, ok, err, Run, returns, aborts, undefined, blocks, Ensures,
  Ensures-bind,
}
use bind_dyndb_ldap_pagure_i.Metadata.{Database}
use bind_dyndb_ldap_pagure_i.Events.{Entry, Sender}
use bind_dyndb_ldap_pagure_i.Events.Entries.{Work, check, with_entry}

module _ {Uuid Name : Type 0} (db : Database Uuid Name) (sender : Sender Name)
    (name_equal : Name → Name → Bool) (empty_name : Name) where
  abbrev pub W : Type 0
  W = Work db sender name_equal empty_name

  -- The rest is only run with ISC_R_SUCCESS; otherwise what the step gave is the end.
  pub check-Ensures :
      (S Q : IscResult × W → Type 0) (m : Run (IscResult × W)) (k : W → Run (IscResult × W))
      → Ensures S m
      → ((p : IscResult × W) → S p → is_success p.0 ≡ true → Ensures Q (k p.1))
      → ((p : IscResult × W) → S p → is_success p.0 ≡ false → Q p)
      → Ensures Q (check db sender name_equal empty_name m k)
  check-Ensures S Q m k h go stop =
      Ensures-bind S Q m (λ p. if is_success p.0 then k p.1 else returns (p.0, p.1)) h
        λ p s. elim (Bool-cases (is_success p.0)) [
          | inl e ↦ rw e (go p s e)
          | inr e ↦ rw e (stop p s e)
        ]

  -- What is done with the entry, if one was found.
  pub with_entry-Ensures :
      (Q : IscResult × W → Type 0) (m : Run (Result (Entry Name))) (w : W)
      (k : Entry Name → W → Run (IscResult × W))
      → ((r : IscResult) → is_success r ≡ false → Q (r, w))
      → ((e : Entry Name) → m ≡ returns (ok e) → Ensures Q (k e w))
      → Ensures Q (with_entry db sender name_equal empty_name m w k)
  with_entry-Ensures Q (returns (ok e)) w k stop go = go e refl
  with_entry-Ensures Q (returns (err r)) w k stop go = elim (Bool-cases (is_success r)) [
    | inl e ↦ rw e tt
    | inr e ↦ rw e (stop r e)
  ]
  with_entry-Ensures Q aborts w k stop go = tt
  with_entry-Ensures Q undefined w k stop go = tt
  with_entry-Ensures Q blocks w k stop go = tt
