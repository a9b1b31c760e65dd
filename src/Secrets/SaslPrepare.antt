-- ===== src/Secrets/SaslPrepare.antt =====
-- pg_sasl_prepare/pg_sasl_prepare.c: pg_sasl_prepare.
use pg_plugins.Base.{Bool, not, Bytes}
use pg_plugins.Base.Result.{Result, ok, err, ◌>>◌, raise_if}
use pg_plugins.Secrets.Scram.{Prepared, sasl_success}

pub data PrepareError : Type 0 where
  not_utf8 error_while_processing : PrepareError

-- For the encoding of the database and pg_saslprep.
unfoldable pub pg_sasl_prepare :
    (utf8 : Bool) (saslprep : Bytes → Prepared) (password : Bytes) → Result PrepareError Bytes
pg_sasl_prepare utf8 saslprep password = do
  raise_if (not utf8) not_utf8
  elim (saslprep password) [ sasl_success prepared ↦ ok prepared | _ ↦ err error_while_processing ]
