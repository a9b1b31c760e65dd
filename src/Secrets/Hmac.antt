-- ===== src/Secrets/Hmac.antt =====
-- hmac_funcs/hmac_funcs.c: hmac_internal and the six SQL functions.
use pg_plugins.Base.{ℕ, Option, none, some, Bytes, codes}
use pg_plugins.Base.Result.{Result, ok, err, ◌>>=◌}

pub data HashType : Type 0 where
  pg_md5 pg_sha1 pg_sha224 pg_sha256 pg_sha384 pg_sha512 : HashType

-- The HMAC context of the server, whose calls give the new context, or the message of pg_hmac_error.
-- A context that could not be created is none. The lengths of the digests are in common/.
pub record HmacApi : Type 1 where
  pub Context : Type 0
  pub create : HashType → Option Context
  pub init : Option Context → (key : Bytes) → Result Bytes Context
  pub update : Context → (data_ : Bytes) → Result Bytes Context
  pub final : Context → (len : ℕ) → Result Bytes Bytes
  pub md5_digest_length : ℕ
  pub sha1_digest_length : ℕ
  pub sha224_digest_length : ℕ
  pub sha256_digest_length : ℕ
  pub sha384_digest_length : ℕ
  pub sha512_digest_length : ℕ

-- The three errors raised, with the name of the type and the message. The functions are not strict, so
-- a NULL argument is read through.
pub data HmacError : Type 0 where
  could_not_initialize could_not_update could_not_finalize : (typestr message : Bytes) → HmacError
  fault : HmacError

abbrev pub typestr : HashType → Bytes
typestr pg_md5 = codes "MD5"
typestr pg_sha1 = codes "SHA1"
typestr pg_sha224 = codes "SHA224"
typestr pg_sha256 = codes "SHA256"
typestr pg_sha384 = codes "SHA384"
typestr pg_sha512 = codes "SHA512"

abbrev pub raised : {A : Type 0} → (Bytes → HmacError) → Result Bytes A → Result HmacError A
raised e (ok a) = ok a
raised e (err message) = err (e message)

abbrev pub given : Option Bytes → Result HmacError Bytes
given none = err fault
given (some s) = ok s

module _ (api : HmacApi) where
  abbrev pub digest_length : HashType → ℕ
  digest_length pg_md5 = api.md5_digest_length
  digest_length pg_sha1 = api.sha1_digest_length
  digest_length pg_sha224 = api.sha224_digest_length
  digest_length pg_sha256 = api.sha256_digest_length
  digest_length pg_sha384 = api.sha384_digest_length
  digest_length pg_sha512 = api.sha512_digest_length

  unfoldable pub hmac_internal : HashType → (input key : Option Bytes) → Result HmacError Bytes
  hmac_internal type input key = do
    data_ ← given input
    keydata ← given key
    ctx ← raised (could_not_initialize (typestr type)) (api.init (api.create type) keydata)
    ctx' ← raised (could_not_update (typestr type)) (api.update ctx data_)
    raised (could_not_finalize (typestr type)) (api.final ctx' (digest_length type))

  unfoldable pub hmac_md5 : (input key : Option Bytes) → Result HmacError Bytes
  unfolding hmac_internal
  hmac_md5 = hmac_internal pg_md5

  unfoldable pub hmac_sha1 : (input key : Option Bytes) → Result HmacError Bytes
  unfolding hmac_internal
  hmac_sha1 = hmac_internal pg_sha1

  unfoldable pub hmac_sha224 : (input key : Option Bytes) → Result HmacError Bytes
  unfolding hmac_internal
  hmac_sha224 = hmac_internal pg_sha224

  unfoldable pub hmac_sha256 : (input key : Option Bytes) → Result HmacError Bytes
  unfolding hmac_internal
  hmac_sha256 = hmac_internal pg_sha256

  unfoldable pub hmac_sha384 : (input key : Option Bytes) → Result HmacError Bytes
  unfolding hmac_internal
  hmac_sha384 = hmac_internal pg_sha384

  unfoldable pub hmac_sha512 : (input key : Option Bytes) → Result HmacError Bytes
  unfolding hmac_internal
  hmac_sha512 = hmac_internal pg_sha512
