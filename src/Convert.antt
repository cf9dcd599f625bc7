-- ===== src/Convert.antt =====
-- src/ldap_convert.c: conversions between the names of LDAP and of the DNS.
pub mod Escape
pub mod Dn
pub mod Rdatatype
