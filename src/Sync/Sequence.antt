-- ===== src/Sync/Sequence.antt =====
-- The sequence numbers of src/syncrepl.c, by which a synchronous sender knows that its event has
-- been processed.
use bind_dyndb_ldap_pagure_i.Prelude.{
  ℕ, ◌-◌, ◌^◌, ◌<◌, ◌≡◌, ◌≢◌, ◌↔◌, ◌⊎◌, Bool, true, List, [], ◌∷◌, arith,
}
use bind_dyndb_ldap_pagure_i.Isc.{success, returns}
use bind_dyndb_ldap_pagure_i.Sync.{SyncCtx, next_seqid, await_event, sync_event_send}

-- Two events that are sent one after the other have different numbers, except at one place: where
-- the 32-bit counter stands at 2^32 - 2. There, and only there, both have the number 0.
pub next_seqid_ne_iff :
    (ctx : SyncCtx)
    → ctx.next_id < 2 ^ 32
    → (((next_seqid ctx).1 ≢ (next_seqid (next_seqid ctx).0).1) ↔ (ctx.next_id ≢ 2 ^ 32 - 2))
      × ((((next_seqid ctx).1 ≡ 0) × ((next_seqid (next_seqid ctx).0).1 ≡ 0))
          ↔ (ctx.next_id ≡ 2 ^ 32 - 2))
unfolding next_seqid
next_seqid_ne_iff ctx h = (
  (λ d e. d (omega arith), λ d e. d (omega arith)),
  (λ (a, b). omega arith, λ e. (omega arith, omega arith)),
)

-- The number was seen as the last processed one.
abbrev pub Seen : ℕ → List (ℕ × Bool) → Type 0
Seen n [] = ⊥
Seen n ((last_id, exiting) ∷ later) = (last_id ≡ n) ⊎ Seen n later

abbrev pub Stops : ℕ → List (ℕ × Bool) → Type 0
Stops n [] = ⊥
Stops n ((last_id, exiting) ∷ later) = (last_id ≡ n) ⊎ ((exiting ≡ true) ⊎ Stops n later)

await_event_success :
    (n : ℕ) (looks : List (ℕ × Bool)) → await_event n looks ≡ returns success → Seen n looks
unfolding await_event
await_event_success n [] h = cc
await_event_success n ((l, x) ∷ later) h = ground (arith, h, await_event_success n later)

-- A synchronous `sync_event_send` that succeeds has seen the number of its event as the last
-- processed one.
pub sync_event_send_success :
    (ctx : SyncCtx) (looks : List (ℕ × Bool))
    → (sync_event_send ctx true looks).2 ≡ returns success
    → Seen (sync_event_send ctx true looks).1 looks
unfolding sync_event_send
sync_event_send_success ctx looks = await_event_success (next_seqid ctx).1 looks
