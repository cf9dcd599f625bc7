-- ===== src/Events.antt =====
-- src/ldap_helper.c: what is done when an LDAP entry was added, modified or deleted. `ldap_sync_search_entry`
-- writes the metadata database and sends an event for the entry to a task.
pub mod Entries
mod Found
mod Steps
pub mod Version
mod Kept
pub mod Closed
pub mod Slots
pub mod Sent
mod Taken
mod Phases
pub mod Calls
pub mod Update
mod Tests
use bind_dyndb_ldap_pagure_i.Prelude.{
  ℕ, ◌+◌, ◌≡◌, Bool, true, false, ◌&&◌, ◌||◌, not, Option, none, some, List, [], ◌∷◌, ◌++◌,
  if◌then◌else◌,
}
use bind_dyndb_ldap_pagure_i.Isc.{
  IscResult, success, nomemory, notimplemented, is_success, Result, ok, err, Run, returns, ◌>>=◌,
  ◌>>◌, require,
}
use bind_dyndb_ldap_pagure_i.LdapEntry.Class.{EntryClass, any_class}
use bind_dyndb_ldap_pagure_i.Sync.{SyncCtx, sync_event_send}

-- `entry->class`, `entry->fqdn` and `entry->zone_name`.
pub record Entry (Name : Type 0) : Type 0 where
  pub class : EntryClass
  pub fqdn : Name
  pub zone_name : Name

-- LDAP_SYNC_CAPI_ADD, LDAP_SYNC_CAPI_MODIFY, LDAP_SYNC_CAPI_DELETE and the other phases.
pub data Phase : Type 0 where
  phase_add phase_modify phase_delete : Phase
  phase_other : ℕ → Phase

-- `update_config`, `update_serverconfig`, `update_zone` and `update_record`.
pub data Action : Type 0 where
  act_config act_serverconfig act_zone act_record : Action

-- `ldap_syncreplevent_t` with the task that it is sent to.
pub record SyncreplEvent (Name : Type 0) : Type 0 where
  pub action : Action
  pub task : ℕ
  pub seqid : ℕ
  pub chgtype : Phase
  pub entry : Entry Name

-- The context, the events that were sent, and how often `sync_concurr_limit_wait` has let a caller
-- in and `sync_concurr_limit_signal` was called.
pub record Outside (Name : Type 0) : Type 0 where
  pub ctx : SyncCtx
  pub events : List (SyncreplEvent Name)
  pub waits : ℕ
  pub signals : ℕ

abbrev pub is_config : EntryClass → Bool
is_config c = c.config || c.serverconfig

-- The chain of tests on the class.
unfoldable pub action_of : EntryClass → Option Action
action_of c =
    if c.config
    then some act_config
    else if c.serverconfig
    then some act_serverconfig
    else if c.master
    then some act_zone
    else if c.forward
    then some act_zone
    else if c.rr
    then some act_record
    else none

-- Whether an entry goes to the task of its zone.
abbrev pub is_record : EntryClass → Bool
is_record c = c.rr && not c.master

-- `inst->task`, whether an event can be allocated, and what `zr_get_zone_ptr` finds for a name, a
-- zone as its task.
pub record Sender (Name : Type 0) : Type 0 where
  pub inst_task : ℕ
  pub event_memory : Bool
  pub zone_task : Name → Result ℕ
  pub zone_task_failed : (n : Name) (r : IscResult) → zone_task n ≡ err r → is_success r ≡ false

module _ {Name : Type 0} (sender : Sender Name) where
  -- The name of the zone of an entry.
  abbrev pub zone_of : Entry Name → Name
  zone_of e = if e.class.master then e.fqdn else e.zone_name

  abbrev pub task_of : Entry Name → Result ℕ
  task_of e = if is_record e.class then sender.zone_task (zone_of e) else ok sender.inst_task

  abbrev pub sent_with :
      Outside Name
      → Action
      → ℕ
      → Phase
      → Entry Name
      → SyncCtx × ℕ × Run IscResult
      → Run (IscResult × Outside Name)
  sent_with o action task chgtype e (ctx, seqid, wait) = do
    r ← wait
    returns (
      r,
      record o {
        ctx = ctx;
        events =
            o.events
            ++ record { action = action; task = task; seqid = seqid; chgtype = chgtype; entry = e }
              ∷ [];
      },
    )

  abbrev pub send_event :
      Outside Name
      → Entry Name
      → Phase
      → List (ℕ × Bool)
      → ℕ
      → Option Action
      → Run (IscResult × Outside Name)
  send_event o e chgtype looks task none = returns (notimplemented, o)
  send_event o e chgtype looks task (some action) =
      if sender.event_memory
      then sent_with o action task chgtype e (sync_event_send o.ctx (not (is_record e.class)) looks)
      else returns (nomemory, o)

  abbrev pub to_task :
      Outside Name
      → Entry Name
      → Phase
      → List (ℕ × Bool)
      → Result ℕ
      → Run (IscResult × Outside Name)
  to_task o e chgtype looks (err r) = returns (r, o)
  to_task o e chgtype looks (ok task) = send_event o e chgtype looks task (action_of e.class)

  -- `looks` is what a synchronous sender sees while it waits. An event that was allocated is sent, and
  -- `isc_task_send` clears the pointer, so the part of the cleanup for an event that was not sent is
  -- not reached.
  unfoldable pub syncrepl_update :
      Outside Name → Entry Name → Phase → List (ℕ × Bool) → Run (IscResult × Outside Name)
  unfolding action_of sync_event_send
  syncrepl_update o e chgtype looks = do
    require (any_class e.class)
    to_task o e chgtype looks (task_of e)
