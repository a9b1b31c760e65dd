-- ===== src/Secrets.antt =====
-- scram_utils/scram_utils.c, hmac_funcs/hmac_funcs.c and pg_sasl_prepare/pg_sasl_prepare.c: the plugins
-- around the cryptographic routines of the server.
pub mod Scram
pub mod Hmac
pub mod SaslPrepare
mod Verifiers
mod Tests
