-- ===== src/Events/Calls.antt =====
-- A whole call of `ldap_sync_search_entry`: its events and the limit of concurrent events.
use bind_dyndb_ldap_pagure_i.Prelude.{
  ◌+◌, ◌≡◌, refl, subst, ◌∙◌, ap, inl, inr, ◌⊎◌, Bool, true, false, ◌++◌, if◌then◌else◌,
}
use bind_dyndb_ldap_pagure_i.Isc.{
  IscResult, is_success, Run, returns, Ensures, Ensures-bind, Ensures-mono, Ensures-returns,
}
use bind_dyndb_ldap_pagure_i.Metadata.{Database}
use bind_dyndb_ldap_pagure_i.Metadata.Mldap.{Mldap}
use bind_dyndb_ldap_pagure_i.Events.{Phase, Outside, Sender}
use bind_dyndb_ldap_pagure_i.Events.Entries.{
  check, Call, open_meta, close_meta, take_slot, in_phase, signal, cleanup, ldap_sync_search_entry,
}
use bind_dyndb_ldap_pagure_i.Events.Taken.{
  one_more, Taken, Begun, take_slot-Taken, Taken-of, Taken-refused, opened-Begun,
}
use bind_dyndb_ldap_pagure_i.Events.Steps.{W, check-Ensures}
use bind_dyndb_ldap_pagure_i.Events.Slots.{Events}
use bind_dyndb_ldap_pagure_i.Events.Sent.{Sent as sent_at, close_meta-Quiet}
use bind_dyndb_ldap_pagure_i.Events.Phases.{
  Here as here_at, Tally as tally_at, in_phase-Sent, Tally-of,
}

module _ {Uuid Name : Type 0} (db : Database Uuid Name) (sender : Sender Name)
    (name_equal : Name → Name → Bool) (empty_name : Name) where
  abbrev Here :
      (Events Name → Type 0)
      → W db sender name_equal empty_name
      → IscResult × W db sender name_equal empty_name
      → Type 0
  Here = here_at db sender name_equal empty_name

  abbrev pub Sent :
      Call db sender name_equal empty_name → Uuid → db.Version → Phase → Events Name → Type 0
  Sent = sent_at db sender name_equal empty_name

  abbrev Tally :
      (Events Name → Type 0) → Outside Name → IscResult × W db sender name_equal empty_name → Type 0
  Tally = tally_at db sender name_equal empty_name

  slotted-Tally :
      (call : Call db sender name_equal empty_name) (uuid : Uuid) (phase : Phase) (o : Outside Name)
      (v : db.Version) (r : IscResult) (w : W db sender name_equal empty_name)
      → Begun db sender name_equal empty_name o v (r, w)
      → Ensures (Tally (Sent call uuid v phase) o) (
          check db sender name_equal empty_name
            (take_slot db sender name_equal empty_name call w)
            (λ w2. in_phase db sender name_equal empty_name call uuid phase w2))
  slotted-Tally call uuid phase o v r w (h, c) =
      let said = Sent call uuid v phase in
      check-Ensures db sender name_equal empty_name (Taken db sender name_equal empty_name w)
        (Tally said o) (take_slot db sender name_equal empty_name call w)
        (λ w2. in_phase db sender name_equal empty_name call uuid phase w2)
        (take_slot-Taken db sender name_equal empty_name call w)
        (λ p s f.
          Ensures-mono (Here said p.1) (Tally said o)
            (in_phase db sender name_equal empty_name call uuid phase p.1)
            (subst
              (λ x.
                Ensures (Here (Sent call uuid x phase) p.1)
                  (in_phase db sender name_equal empty_name call uuid phase p.1))
              (ap (λ x. x.mdb.current) (s.0) ∙ c)
              (in_phase-Sent db sender name_equal empty_name call uuid phase p.1))
            (λ q a.
              Tally-of db sender name_equal empty_name said o p.1 q
                (Taken-of db sender name_equal empty_name w p s f ∙ ap one_more h) a))
        (λ p s f.
          inr (f, ap (λ x. x.signals) (Taken-refused db sender name_equal empty_name w p s f ∙ h)))

  -- What has happened at the end of a call, if what was sent has some property.
  abbrev pub Accounts :
      (Events Name → Type 0) → Outside Name → IscResult × W db sender name_equal empty_name → Type 0
  Accounts P o (r, w) =
      ((is_success r ≡ true)
        × (w.outside.waits ≡ o.waits + 1)
        × (w.outside.signals ≡ o.signals)
        × (added : Events Name) × (w.outside.events ≡ o.events ++ added)
        × P added)
      ⊎ ((is_success r ≡ false) × (w.outside.signals ≡ o.signals + 1))

  signalled :
      (P : Events Name → Type 0) (o : Outside Name) (r : IscResult)
      (w w' : W db sender name_equal empty_name)
      → Tally P o (r, w)
      → w'.outside ≡ w.outside
      → Accounts P o (r, if is_success r then w' else signal db sender name_equal empty_name w')
  signalled P o r w w' (inl (e, a, b, l, is, sent)) h = rw e (
      inl (
        refl,
        ap (λ x. x.waits) h ∙ a,
        ap (λ x. x.signals) h ∙ b,
        l,
        ap (λ x. x.events) h ∙ is,
        sent,
      ))
  signalled P o r w w' (inr (e, b)) h =
      rw e (inr (refl, ap (λ n. n + 1) (ap (λ x. x.signals) h ∙ b)))

  cleanup-Accounts :
      (P : Events Name → Type 0) (o : Outside Name)
      (p : IscResult × W db sender name_equal empty_name)
      → Tally P o p
      → Ensures (Accounts P o) (cleanup db sender name_equal empty_name p)
  cleanup-Accounts P o (r, w) t =
      Ensures-bind (λ w'. w'.outside ≡ w.outside) (Accounts P o)
        (if w.open_version
          then close_meta db sender name_equal empty_name (is_success r) w
          else returns w)
        (λ w'. returns (r, if is_success r then w' else signal db sender name_equal empty_name w'))
        (closing_quiet w.open_version) (λ w' h. signalled P o r w w' t h)
    where
      closing_quiet :
          (b : Bool)
          → Ensures
              (λ w'. w'.outside ≡ w.outside)
              (if b then close_meta db sender name_equal empty_name (is_success r) w else returns w)
      closing_quiet true = close_meta-Quiet db sender name_equal empty_name (is_success r) w
      closing_quiet false = refl

  search_entry-Accounts :
      (call : Call db sender name_equal empty_name) (uuid : Uuid) (phase : Phase) (o : Outside Name)
      (mldap : Mldap db)
      → call.exiting ≡ false
      → Ensures
          (Accounts (Sent call uuid mldap.mdb.current phase) o)
          (ldap_sync_search_entry db sender name_equal empty_name call uuid phase o mldap)
  unfolding ldap_sync_search_entry
  search_entry-Accounts call uuid phase o mldap running =
      let said = Sent call uuid mldap.mdb.current phase in
      let start : W db sender name_equal empty_name = record {
        outside = o;
        mldap = mldap;
        open_version = false;
      } in
      let rest : W db sender name_equal empty_name
          → Run (IscResult × W db sender name_equal empty_name) =
        λ w1.
          check db sender name_equal empty_name (take_slot db sender name_equal empty_name call w1)
            (λ w2. in_phase db sender name_equal empty_name call uuid phase w2) in
      rw running (
        Ensures-bind (Tally said o) (Accounts said o)
          (check db sender name_equal empty_name (open_meta db sender name_equal empty_name start)
            rest)
          (λ p. cleanup db sender name_equal empty_name p)
          (check-Ensures db sender name_equal empty_name
            (Begun db sender name_equal empty_name o mldap.mdb.current) (Tally said o)
            (open_meta db sender name_equal empty_name start) rest
            (opened-Begun db sender name_equal empty_name o start refl)
            (λ p h f. slotted-Tally call uuid phase o mldap.mdb.current p.0 p.1 h)
            (λ p h f. inr (f, ap (λ x. x.signals) (h.0))))
          (λ p t. cleanup-Accounts said o p t))

  -- Let `ldap_sync_search_entry` return while the instance is not exiting. If its result is
  -- success, it has taken one slot of the limit, given none back, and sent one event: for an
  -- addition or a modification it has the class and the names that were parsed from the message,
  -- for a deletion those that the committed metadata have for the UUID, and it has that type of
  -- change. After a rename, where the entry in the metadata is not configuration and has not the
  -- owner name or not the zone of the message, it has sent two for the one slot, the deletion of
  -- the old entry and then the addition of the new one. If it failed, it has given one slot back.
  pub ldap_sync_search_entry-Accounts :
      (call : Call db sender name_equal empty_name) (uuid : Uuid) (phase : Phase) (o : Outside Name)
      (mldap : Mldap db) (r : IscResult) (w : W db sender name_equal empty_name)
      → call.exiting ≡ false
      → ldap_sync_search_entry db sender name_equal empty_name call uuid phase o mldap
        ≡ returns (r, w)
      → Accounts (Sent call uuid mldap.mdb.current phase) o (r, w)
  ldap_sync_search_entry-Accounts call uuid phase o mldap r w running done =
      Ensures-returns (Accounts (Sent call uuid mldap.mdb.current phase) o)
        (ldap_sync_search_entry db sender name_equal empty_name call uuid phase o mldap) (r, w) done
        (search_entry-Accounts call uuid phase o mldap running)
