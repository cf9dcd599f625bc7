-- ===== src/Forwarding/Config.antt =====
-- `fwd_parse_str` of src/fwd.c: forwarders from a text in the syntax of named.conf.
use bind_dyndb_ldap_pagure_i.Prelude.{
  ℕ, suc, ◌≡◌, ◌≢◌, refl, ap, inl, inr, String, Bool, List, [], ◌∷◌, arith, length, All, ◌==◌,
  if◌then◌else◌, Bool-cases,
}
use bind_dyndb_ldap_pagure_i.Isc.{IscResult, nomemory, is_success, Result, ok, err, Result-cases}

-- `dns_forwarder_t`
pub record Forwarder (Addr : Type 0) : Type 0 where
  pub addr : Addr
  pub dscp : ℕ

-- The configuration library: `cfg_parser_create`, `cfg_parse_strbuf` with the addresses and their
-- DSCP values, and the port of an address.
pub record CfgParser (Addr : Type 0) : Type 0 where
  pub create : IscResult
  pub parse_strbuf : String → Result (List (Addr × ℕ))
  pub getport : Addr → ℕ
  pub setport : Addr → ℕ → Addr

module _ {Addr : Type 0} (lib : CfgParser Addr) (memory : Addr → Bool) where
  abbrev pub with_port : Addr → Addr
  with_port addr = if lib.getport addr == 0 then lib.setport addr 53 else addr

  unfoldable pub add_forwarders : List (Addr × ℕ) → Result (List (Forwarder Addr))
  add_forwarders [] = ok []
  add_forwarders ((addr, dscp) ∷ rest) =
      let more = add_forwarders rest in
      if memory addr
      then elim more [
        | ok fwdrs ↦ ok (record { addr = with_port addr; dscp = dscp } ∷ fwdrs)
        | err r ↦ err r
      ]
      else err nomemory

  unfoldable pub fwd_parse_str : String → Result (List (Forwarder Addr))
  unfolding add_forwarders
  fwd_parse_str text =
      if is_success lib.create
      then elim (lib.parse_strbuf text) [ ok addresses ↦ add_forwarders addresses | err r ↦ err r ]
      else err lib.create

  abbrev pub HasPort : Forwarder Addr → Type 0
  HasPort f = lib.getport f.addr ≢ 0

  module _ (sets : (a : Addr) → lib.getport (lib.setport a 53) ≡ 53) where
    with_port-HasPort : (a : Addr) → lib.getport (with_port a) ≢ 0
    with_port-HasPort a = elim (Bool-cases (lib.getport a == 0)) [
      | inl e ↦ let port = sets a in ground (arith, e, port)
      | inr e ↦ ground (arith, e)
    ]

    -- Each address gives one forwarder, and each forwarder has a port.
    pub add_forwarders_lem :
        (addresses : List (Addr × ℕ)) (fwdrs : List (Forwarder Addr))
        → add_forwarders addresses ≡ ok fwdrs
        → (length fwdrs ≡ length addresses) × All HasPort fwdrs
    unfolding add_forwarders
    add_forwarders_lem [] fwdrs h =
        let value : fwdrs ≡ [] = ground (arith, h) in rw value (refl, tt)
    add_forwarders_lem ((addr, dscp) ∷ rest) fwdrs h = elim (Bool-cases (memory addr)) [
      | inr e ↦ absurd (ground (arith, h, e))
      | inl e ↦ elim (Result-cases (add_forwarders rest)) [
        | inr (r, f) ↦ absurd (ground (arith, h, e, f))
        | inl (l, f) ↦
            let (size, ports) = add_forwarders_lem rest l f in
            let value : fwdrs ≡ record { addr = with_port addr; dscp = dscp } ∷ l =
              ground (arith, h, e, f) in
            rw value (ap suc size, (with_port-HasPort addr, ports))
      ]
    ]
