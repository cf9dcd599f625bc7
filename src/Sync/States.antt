-- ===== src/Sync/States.antt =====
-- The state machine of src/syncrepl.c: which changes of state it lets pass.
use bind_dyndb_ldap_pagure_i.Prelude.{
  ℕ, suc, ◌≡◌, refl, sym, ◌∙◌, ap, ◌↔◌, inl, inr, List, [], ◌∷◌, arith,
}
use bind_dyndb_ldap_pagure_i.Isc.{Run, returns, aborts, ◌>>=◌, Run-cases}
use bind_dyndb_ldap_pagure_i.Sync.{
  SyncState, sync_configinit, sync_configbarrier, sync_datainit, sync_databarrier, sync_finished,
  SyncCtx, sync_state_change, sync_state_reset,
}

pub data Next : SyncState → SyncState → Type 0 where
  config_received : Next sync_configinit sync_configbarrier
  config_processed : Next sync_configbarrier sync_datainit
  data_received : Next sync_datainit sync_databarrier
  data_processed : Next sync_databarrier sync_finished

Next-change :
    (ctx : SyncCtx) (s new : SyncState)
    → ctx.state ≡ s
    → Next s new
    → sync_state_change ctx new ≡ returns (record ctx { state = new })
unfolding sync_state_change
Next-change ctx _ _ e config_received = ground (arith, e)
Next-change ctx _ _ e config_processed = ground (arith, e)
Next-change ctx _ _ e data_received = ground (arith, e)
Next-change ctx _ _ e data_processed = ground (arith, e)

change-Next :
    (ctx ctx' : SyncCtx) (s new : SyncState)
    → ctx.state ≡ s
    → sync_state_change ctx new ≡ returns ctx'
    → Next s new
unfolding sync_state_change
change-Next ctx ctx' sync_configinit sync_configbarrier e h = config_received
change-Next ctx ctx' sync_configbarrier sync_datainit e h = config_processed
change-Next ctx ctx' sync_datainit sync_databarrier e h = data_received
change-Next ctx ctx' sync_databarrier sync_finished e h = data_processed
change-Next ctx ctx' s new e h = absurd (ground (arith, e, h))

change_result :
    (ctx ctx' : SyncCtx) (new : SyncState)
    → sync_state_change ctx new ≡ returns ctx'
    → ctx' ≡ record ctx { state = new }
unfolding sync_state_change
change_result ctx ctx' new h = ground (arith, h)

-- `sync_state_change` returns exactly when the new state is the one that follows in the order of
-- the synchronisation, and then it changes nothing but the state; any other change is fatal.
pub sync_state_change_iff :
    (ctx ctx' : SyncCtx) (new : SyncState)
    → (sync_state_change ctx new ≡ returns ctx')
      ↔ (Next ctx.state new × (ctx' ≡ record ctx { state = new }))
sync_state_change_iff ctx ctx' new = (
  λ h. (change-Next ctx ctx' ctx.state new refl h, change_result ctx ctx' new h),
  λ n. Next-change ctx ctx.state new refl n.0 ∙ sym (ap returns n.1),
)

abbrev pub rank : SyncState → ℕ
rank sync_configinit = 0
rank sync_configbarrier = 1
rank sync_datainit = 2
rank sync_databarrier = 3
rank sync_finished = 4

pub data Call : Type 0 where
  change : SyncState → Call
  reset : Call

unfoldable pub call : SyncCtx → Call → Run SyncCtx
call ctx (change new) = sync_state_change ctx new
call ctx reset = sync_state_reset ctx

unfoldable pub call_all : SyncCtx → List Call → Run SyncCtx
call_all ctx [] = returns ctx
call_all ctx (c ∷ rest) = call ctx c >>= λ ctx'. call_all ctx' rest

-- The changes of state since the last reset, of which `n` came before the calls.
abbrev pub since_reset : ℕ → List Call → ℕ
since_reset n [] = n
since_reset n (change new ∷ rest) = since_reset (suc n) rest
since_reset n (reset ∷ rest) = since_reset 0 rest

change-rank :
    (ctx ctx' : SyncCtx) (new : SyncState)
    → sync_state_change ctx new ≡ returns ctx'
    → rank ctx'.state ≡ suc (rank ctx.state)
unfolding sync_state_change
change-rank ctx ctx' new h = ground (arith, h)

reset-rank : (ctx ctx' : SyncCtx) → sync_state_reset ctx ≡ returns ctx' → rank ctx'.state ≡ 0
unfolding sync_state_reset
reset-rank ctx ctx' h = ground (arith, h)

-- After any calls of `sync_state_change` and `sync_state_reset` that all return, the place of the
-- state in the order is the number of changes since the last reset.
pub rank-call_all :
    (ctx ctx' : SyncCtx) (l : List Call)
    → call_all ctx l ≡ returns ctx'
    → rank ctx'.state ≡ since_reset (rank ctx.state) l
unfolding call_all call
rank-call_all ctx ctx' [] h = ground (arith, h)
rank-call_all ctx ctx' (change new ∷ l) h = elim (Run-cases (sync_state_change ctx new)) [
  | inl (u, e) ↦
      rank-call_all u ctx' l (ground (arith, h, e))
      ∙ ap (λ n. since_reset n l) (change-rank ctx u new e)
  | inr e ↦ ground (arith, h, e)
]
rank-call_all ctx ctx' (reset ∷ l) h = elim (Run-cases (sync_state_reset ctx)) [
  | inl (u, e) ↦
      rank-call_all u ctx' l (ground (arith, h, e)) ∙ ap (λ n. since_reset n l) (reset-rank ctx u e)
  | inr e ↦ ground (arith, h, e)
]

-- Nothing leads out of the final state: in it every change of state and every reset is fatal.
pub finished_is_final : (ctx : SyncCtx) (c : Call) → ctx.state ≡ sync_finished → call ctx c ≡ aborts
unfolding call sync_state_change sync_state_reset
finished_is_final ctx (change new) e = ground (arith, e)
finished_is_final ctx reset e = ground (arith, e)
