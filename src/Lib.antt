-- ===== src/Lib.antt =====
-- bind-dyndb-ldap: a driver of the BIND name server that keeps its zones in LDAP. The driver reads
-- settings, follows the changes in the LDAP tree (syncrepl), turns LDAP entries into DNS zones and
-- records, and registers the zones with BIND.
--
-- The parts that are modelled, and the files (under src/ of the repository) that they model:
--   Settings      settings.c, settings.h: named values in sets. A set is searched first, then its
--                 parents, which the model gives as the list of sets from the nearest to the root.
--                 Children: Sources (updates from an LDAP entry, filling from the configuration, the
--                 completeness check, tables of enumerations), Find and Resolve (the search),
--                 Write, Frame, Entry, Complete (what the operations do to later searches).
--   LdapEntry     ldap_entry.c, ldap_entry.h: the attributes of an entry and the search in them. Class
--                 is about object classes, Parse turns a message of the LDAP library into an entry,
--                 Iterate is the iteration over record attributes, Ttl the TTL of an entry.
--   Strings       str.c: strings in a growing buffer. Memory has the reads and writes, which fault
--                 outside of the buffer; Growth and Alloc are about its size, Content and Chain about
--                 the text in it.
--   Sync          syncrepl.c, syncrepl.h: the context of the initial synchronisation. States is
--                 about its state machine, Sequence about the numbers of events. Sync/World is the
--                 barrier: tasks with queues of events, of which one step takes one event from one
--                 queue; Queues, Guarded, Barrier and Wait hold its invariant, Progress and
--                 Liveness what follows.
--   Semaphore     semaphore.c, semaphore.h, and the limit of concurrent events of syncrepl.c.
--   Convert       ldap_convert.c. Dn has dn_to_dnsname and dnsname_to_dn, which uses the zone register,
--                 Strings and the escaping; Rdatatype the names of record types; Escape
--                 dns_to_ldap_dn_escape. Escape/Rounds has a definition that reads
--                 the text from left to right, Escape/Loop compares the code with it, Escape/Output
--                 is about the size of the output, Escape/Decode about the bytes that both texts
--                 denote.
--   Registers     fwd_register.c and zone_register.c over Registers/Rbt, an interface with what is
--                 documented of the red-black tree of the DNS library.
--   EmptyZones    empty_zones.c, with zone_isempty and delete_bind_zone of zone_register.c, over an
--                 interface to the names and the zone table of the DNS library. Ends is about the end of
--                 the handling of conflicts.
--   Forwarding    fwd.c: Config parses a list of forwarders, Ldap reads an LDAP entry into the settings,
--                 Forwarding itself goes from the settings to the forwarding table of BIND, an
--                 interface, and to EmptyZones. Explicit and Choice say which set of settings
--                 counts, Table what the table has then, Policy what the settings have.
--   Metadata      metadb.c, mldap.c: the versions of the database, and in Mldap the entries in it with
--                 their class and generation. Stored is about what was written, Dead about the
--                 entries that are left from an earlier generation.
--   Zone          zone.c: changes of a zone with the serial number and the journal, over an interface
--                 to the database and diff functions of the DNS library.
--   SyncPtr       syncptr.c: the handler that keeps a PTR record with its address, over Zone. Validate
--                 is about the check of the record that is there, Changes about the diff, Handler
--                 about the whole. Init chooses the reverse zone and sends the event, Sent says when.
--   Pool          ldap_helper.c: the pool of connections and the threads that use it. Sums and Invariant
--                 have what is kept, Exclusive the steps, Start the pool from its creation on.
--   Records       ldap_helper.c: the records of a name in the database and in LDAP. Minimal has what is
--                 documented of minimal diffs, Diff the loops over them, Wanted the result.
--   Events        ldap_helper.c: the entry point of SyncRepl, ldap_sync_search_entry, over Metadata, and
--                 syncrepl_update, which sends an event over Sync. Version, Kept and Closed are about
--                 the version of the metadata, Found about the entries that a call is
--                 about, Slots, Sent and Calls about the limit and the events.
--   Events/Update ldap_helper.c: update_record, the handler of such an event for a record, over Records
--                 and Zone. Writes and Passes are about one pass of it, Handled about the whole.
--   Isc           result codes, the ways a call can end, a mutex; Text is strcasecmp; Prelude has
--                 shared names and lemmas.
--
-- A call that may stop the process (REQUIRE, INSIST), do something that has no defined meaning, or
-- wait for ever returns a `Run`. What other threads do between two looks at shared state, and which
-- of the tasks runs next, is an argument: a list of what is seen, or of steps. Memory allocation is
-- an argument that says which requests succeed. Numbers are natural numbers; the counter of events
-- and the generation number keep their 32-bit wrap-around.
--
-- Bounds: `escape_loop` runs on fuel, one more than the length of the text, and each round takes
-- at least one character. `grow` runs on fuel for 65 rounds, more than the doublings that a
-- 64-bit size allows. `nextrdtype_loop` runs on one more than the number of attributes.
-- `handle_loop` runs on two more than the length of the table, and each search that finds
-- something ends beyond the entry where it started. All other loops recurse on a list.
--
-- Not modelled: the connection to LDAP, the handlers of events for zones and configuration
-- objects, the templates of records and what writes to LDAP in ldap_helper.c, the database
-- driver, Kerberos, access control, files, exclusive mode, logging; the creation and destruction
-- of objects. The parser of records and load_zone are not modelled either; what they come to is
-- an argument of update_record. Functions of the ISC, DNS and configuration libraries are
-- arguments.
mod Prelude
pub mod Isc
pub mod Text
pub mod LdapEntry
pub mod Strings
pub mod Settings
pub mod Sync
pub mod Semaphore
pub mod Convert
pub mod Registers
pub mod EmptyZones
pub mod Forwarding
pub mod Metadata
pub mod Zone
pub mod SyncPtr
pub mod Pool
pub mod Records
pub mod Events
