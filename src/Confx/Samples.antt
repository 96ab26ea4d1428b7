-- ===== src/Confx/Samples.antt =====
-- Configurations at small inputs.
use pdbcore.Confx.Env.{env_key, env_value, items, fold_underscores}
use pdbcore.Prelude.{
  cut_prefix, lower_rune, replace_byte, ◌+◌, ◌≡◌, refl, ℕ, true, false, [], ◌∷◌, none, some, codes,
  any, elem, text_eq, is_empty, if◌then◌else◌, keep, trim_prefix,
}
use pdbcore.Prelude.Int.{pos}
use pdbcore.Auth.{Request, Library, authenticate, parse_error}
use pdbcore.Auth.Jwks.{Cache, network_error}
use pdbcore.Auth.Peer.{v4, prefix4, peer_trusted}
use pdbcore.Confx.{
  Rls, TxSection, Netip, validate_rls, auth_config, complain, jwt_type_errors, mint_errors,
  mode_errors, parse_trusted_proxy, proxy_errors, role_errors, secret_errors,
}
use pdbcore.Pgexec.Tx.{TxOptions, Session, Backend, read_committed}
use pdbcore.Confx.Policy.{HasRole, authenticate-HasRole, covers, peer_trusted-auth_config}
use pdbcore.Prelude.Words.{is_space, split, trim_space}

abbrev netip : Netip
netip = record {
  parse_prefix = λ s. if text_eq s (codes "10.0.0.0/8") then some (prefix4 0x0a000000 8) else none;
  parse_addr = λ s. none;
}

abbrev rls : Rls
rls = record {
  is_enabled = true;
  default_role = [];
  anonymous_role = codes "anon";
  role_claim = codes "role";
  allowed_roles = [];
  claims_prefix = [];
  auth = record {
    mode = codes "headers";
    jwt_secret = [];
    jwks_url = [];
    jwks_cache_ttl = pos 0;
    jwt_issuer = [];
    jwt_audience = [];
    header_prefix = codes "X-Claim-";
    trusted_proxies = codes "10.0.0.0/8" ∷ [];
    jwt_type = [];
  };
}

rls_valid : validate_rls netip rls ≡ []
unfolding validate_rls mode_errors complain elem text_eq proxy_errors parse_trusted_proxy any
    secret_errors mint_errors is_empty jwt_type_errors role_errors
rls_valid = refl

abbrev library : Library ℕ
library = record {
  outside = record {
    decode_base64 = λ s. none;
    on_curve = λ c p. false;
    now = λ w. w;
    request = λ w. (network_error [], w);
  };
  parse_token = λ opts token source keyfunc c w. (parse_error [], c, w);
  parse_addr_port = λ s. some (v4 0x0a000001);
}

abbrev request : Request
request = record {
  header = (codes "X-Claim-Role", codes "app" ∷ []) ∷ [];
  remote_addr = codes "10.0.0.1:5";
}

abbrev no_keys : Cache
no_keys = record { url = []; ttl = 0; keys = none; fetched = 0 }

authenticate-HasRole_example :
    HasRole (authenticate library (auth_config netip rls) request no_keys 0).0
authenticate-HasRole_example =
    authenticate-HasRole netip library rls request no_keys 0 rls_valid refl

peer_trusted-auth_config_example :
    peer_trusted library.parse_addr_port
      (auth_config netip rls).trusted_proxies
      (codes "10.0.0.1:5")
    ≡ any (covers netip (v4 0x0a000001)) (codes "10.0.0.0/8" ∷ [])
peer_trusted-auth_config_example =
    peer_trusted-auth_config netip library.parse_addr_port rls (codes "10.0.0.0/8") []
      (codes "10.0.0.1:5") refl

abbrev tx : TxSection
tx = record { mutations = true; isolation = codes "serializable"; max_retries = pos 2 }

abbrev backend : Backend ℕ
backend e w = (none, w + 1)

abbrev options : TxOptions
options = record { isolation = read_committed; max_retries = pos 0; rls = true }

abbrev fresh : Session ℕ
fresh = record { trace = []; world = 0 }

env_key_test : env_key (codes "PDBQ_") (codes "PDBQ_SERVER_MAX__DEPTH") ≡ codes "server.max_depth"
unfolding env_key replace_byte fold_underscores trim_prefix cut_prefix lower_rune
env_key_test = refl

env_value_test :
    env_value
      (codes "P_")
      (codes "schema.schemas" ∷ [])
      (codes "P_SCHEMA_SCHEMAS")
      (codes "public, audit,")
    ≡ (codes "schema.schemas", items (codes "public" ∷ codes "audit" ∷ []))
unfolding env_value elem text_eq env_key replace_byte fold_underscores trim_prefix cut_prefix
    lower_rune keep split is_empty trim_space is_space
env_value_test = refl
