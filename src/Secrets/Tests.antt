-- ===== src/Secrets/Tests.antt =====
-- Runs of the plugins around secrets, and the theorem on verifiers at a concrete input.
use pg_plugins.Base.{
  ◌≡◌, inl, refl, true, false, none, some, [], ◌∷◌, ◌++◌, Bytes, codes, str_eq, strchr,
}
use pg_plugins.Base.Int.{pos, negsuc}
use pg_plugins.Base.Result.{ok, err}
use pg_plugins.Secrets.Scram.{
  Server, Catalog, sasl_success, sasl_oom, sasl_invalid, incorrect_iterations,
  incorrect_salt_length, scram_utils_verifier, scram_utils_verifier_bytea, nul_characters,
  not_superuser, no_random, fault, out_of_memory, role_does_not_exist, lookup, defaulted,
  store_verifier,
}
use pg_plugins.Secrets.Verifiers.{scram_verifier_stored}
use pg_plugins.Secrets.Hmac
use pg_plugins.Secrets.Hmac.{
  HmacApi, hmac_md5, hmac_sha1, hmac_sha224, hmac_sha256, hmac_sha384, hmac_sha512,
  could_not_update,
}
use pg_plugins.Secrets.SaslPrepare.{pg_sasl_prepare, not_utf8, error_while_processing}

-- A server whose secret is the salt, the password and the iterations, one after another.
abbrev server : Server
server = record {
  saslprep = λ s. sasl_success s;
  strong_random = λ len. some (len ∷ []);
  scram_build_secret = λ salt iterations password. some (salt ++ password ++ iterations ∷ []);
  default_iterations = 64;
  default_salt_len = 16;
}

abbrev roles : Catalog
roles = (codes "joe", none) ∷ (codes "ann", some (codes "old")) ∷ []

scram_verifier_stored_example :
    (catalog' : Catalog) × (scram_utils_verifier server true
        (codes "ann")
        (codes "pw")
        (negsuc 0)
        (pos 8)
        roles
      ≡ (incorrect_iterations ∷ [], ok catalog'))
    × (lookup (codes "joe") catalog' ≡ some none)
    × (scram_utils_verifier_bytea server true (codes "ann") (1 ∷ 0 ∷ []) (negsuc 0) (pos 8) roles
        ≡ ([], err nul_characters))
unfolding lookup str_eq strchr
scram_verifier_stored_example =
    scram_verifier_stored server true (codes "ann") (codes "pw") (codes "pw") (8 ∷ [])
      (8 ∷ codes "pw" ++ 64 ∷ []) (codes "joe") (1 ∷ 0 ∷ []) (negsuc 0) (pos 8) (some (codes "old"))
      roles (inl refl) refl refl refl

not_superuser_test :
    scram_utils_verifier server false (codes "ann") (codes "pw") (pos 1) (pos 1) roles
    ≡ ([], err not_superuser)
unfolding scram_utils_verifier
not_superuser_test = refl

unknown_role_test :
    scram_utils_verifier server true (codes "bob") (codes "pw") (pos 0) (pos 0) roles
    ≡ (incorrect_iterations ∷ incorrect_salt_length ∷ [], err (role_does_not_exist (codes "bob")))
unfolding scram_utils_verifier store_verifier defaulted str_eq
unknown_role_test = refl

out_of_memory_test :
    store_verifier (record server { saslprep = λ _. sasl_oom }) (codes "ann") (codes "pw") 1 1 roles
    ≡ err out_of_memory
unfolding store_verifier
out_of_memory_test = refl

-- A password that is not prepared is used as it is; a secret that cannot be built is a NULL text.
no_secret_test :
    store_verifier
      (record server { saslprep = λ _. sasl_invalid; scram_build_secret = λ _ _ _. none })
      (codes "joe")
      (codes "pw")
      1
      1
      roles
    ≡ err fault
unfolding store_verifier str_eq
no_secret_test = refl

no_random_test :
    store_verifier
      (record server { strong_random = λ _. none })
      (codes "joe")
      (codes "pw")
      1
      1
      roles
    ≡ err no_random
unfolding store_verifier
no_random_test = refl

-- A digest that is the length wanted, then the key and the data.
abbrev api : HmacApi
api = record {
  Context = Bytes;
  create = λ _. some [];
  init = λ ctx key. ok key;
  update = λ ctx data_. ok (ctx ++ data_);
  final = λ ctx len. ok (len ∷ ctx);
  md5_digest_length = 16;
  sha1_digest_length = 20;
  sha224_digest_length = 28;
  sha256_digest_length = 32;
  sha384_digest_length = 48;
  sha512_digest_length = 64;
}

-- The first argument is the data and the second one the key.
hmac_test :
    (hmac_md5 api (some (codes "d")) (some (codes "k")) ≡ ok (16 ∷ codes "kd"))
    × (hmac_sha1 api (some (codes "d")) (some (codes "k")) ≡ ok (20 ∷ codes "kd"))
    × (hmac_sha224 api (some (codes "d")) (some (codes "k")) ≡ ok (28 ∷ codes "kd"))
    × (hmac_sha256 api (some (codes "d")) (some (codes "k")) ≡ ok (32 ∷ codes "kd"))
    × (hmac_sha384 api (some (codes "d")) (some (codes "k")) ≡ ok (48 ∷ codes "kd"))
    × (hmac_sha512 api (some (codes "d")) (some (codes "k")) ≡ ok (64 ∷ codes "kd"))
unfolding hmac_md5 hmac_sha1 hmac_sha224 hmac_sha256 hmac_sha384 hmac_sha512
hmac_test = (refl, refl, refl, refl, refl, refl)

hmac_update_test :
    hmac_sha1 (record api { update = λ _ _. err (codes "no") }) (some []) (some [])
    ≡ err (could_not_update (codes "SHA1") (codes "no"))
unfolding hmac_sha1
hmac_update_test = refl

hmac_null_test : hmac_md5 api none (some []) ≡ err Hmac.fault
unfolding hmac_md5
hmac_null_test = refl

sasl_prepare_test :
    (pg_sasl_prepare true (λ s. sasl_success (s ++ s)) (codes "a") ≡ ok (codes "aa"))
    × (pg_sasl_prepare true (λ s. sasl_invalid) (codes "a") ≡ err error_while_processing)
    × (pg_sasl_prepare false (λ s. sasl_invalid) (codes "a") ≡ err not_utf8)
unfolding pg_sasl_prepare
sasl_prepare_test = (refl, refl, refl)
