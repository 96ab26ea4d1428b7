-- ===== src/Confx/LoadSamples.antt =====
-- Loading and the reference configuration at small inputs.
use pdbcore.Prelude.{
  All, ◌≡◌, refl, ap, sym, true, List, [], ◌∷◌, ◌++◌, Option, none, some, Text, codes, replace_byte,
  trim_prefix, cut_prefix, lower_rune, quote_text, quoted_runes, quote_rune, text_eq, is_empty,
  elem, if◌then◌else◌,
}
use pdbcore.Prelude.Int.{pos}
use pdbcore.Prelude.Words.{join, trim_space, trim_left, trim_right, is_space}
use pdbcore.Confx.Env.{EnvValue, single, items, env_value, env_key, fold_underscores}
use pdbcore.Confx.Fields.{
  Value, string, integer, slice, struct, nil, cons, Fields, end, field, slice_paths,
  collect_slice_paths, is_inlined, is_left_out,
}
use pdbcore.Confx.ListVariables.{AllPaths, IsItem, has_paths, env_value-env_name}
use pdbcore.Confx.Variables.{env_name, is_path}
use pdbcore.Confx.Example.{Format, example_yaml, pad, yaml_value, element_texts, enclosed}
use pdbcore.Confx.Example.Lines.{settings}
use pdbcore.Confx.Example.Settings.{ArePlainFields, setting_lines, settings-example_yaml}
use pdbcore.Confx.Example.Values.{IsPlain, IsLine}
use pdbcore.Confx.{Rls}
use pdbcore.Confx.Sections.{tagged}
use pdbcore.Confx.Sections.Policies.{rls_fields}
use pdbcore.Confx.Load.{Koanf, Loaded, loaded, load, read_file, read_env, read_flags}
use pdbcore.Confx.Load.Layers.{over, Overrides, from_file, from_flags, load-over}

abbrev rls : Rls
rls = record {
  is_enabled = true;
  default_role = [];
  anonymous_role = codes "anon";
  role_claim = codes "role";
  allowed_roles = [];
  claims_prefix = [];
  auth = record {
    mode = codes "headers";
    jwt_secret = [];
    jwks_url = [];
    jwks_cache_ttl = pos 0;
    jwt_issuer = [];
    jwt_audience = [];
    header_prefix = codes "X-Claim-";
    trusted_proxies = [];
    jwt_type = [];
  };
}

abbrev sample_fields : Fields
sample_fields =
    field (tagged (codes "schemas") (codes "All.")) (slice (cons (string (codes "public")) nil))
      (field (tagged (codes "cache_path") []) (string (codes "a\nb: 1")) end)

abbrev config_fields : Fields
config_fields =
    field (tagged (codes "schema") []) (struct sample_fields)
      (field (tagged (codes "-") []) (integer (pos 1)) end)

abbrev config : Value
config = struct config_fields

one_list : slice_paths config ≡ codes "schema.schemas" ∷ []
unfolding slice_paths collect_slice_paths
one_list = refl

config_paths : has_paths config_fields ≡ true
unfolding has_paths is_path is_inlined is_left_out
config_paths = refl

-- The rls section of a product, at the key that the documentation of its tags names.
abbrev product : Value
product = struct (field (tagged (codes "rls") []) (struct (rls_fields rls)) end)

product_paths : AllPaths product
unfolding has_paths is_path is_inlined is_left_out rls_fields
product_paths = refl

product_lists :
    slice_paths product ≡ codes "rls.allowed_roles" ∷ codes "rls.auth.trusted_proxies" ∷ []
unfolding slice_paths collect_slice_paths rls_fields
product_lists = refl

proxies_listed : elem (codes "rls.auth.trusted_proxies") (slice_paths product) ≡ true
unfolding elem slice_paths collect_slice_paths text_eq rls_fields
proxies_listed = refl

proxy-IsItem : IsItem (codes "::1")
unfolding is_empty trim_space trim_left trim_right is_space
proxy-IsItem = (refl, refl, (refl, (refl, (refl, tt))))

env_value-env_name_example :
    env_value
      (codes "PDBQ_")
      (slice_paths product)
      (codes "PDBQ_" ++ env_name (codes "rls.auth.trusted_proxies"))
      (join (codes ",") (codes "::1" ∷ codes "::1" ∷ []))
    ≡ (codes "rls.auth.trusted_proxies", items (codes "::1" ∷ codes "::1" ∷ []))
env_value-env_name_example =
    env_value-env_name product (codes "PDBQ_") (codes "rls.auth.trusted_proxies") (codes "::1")
      (codes "::1" ∷ []) product_paths proxies_listed (proxy-IsItem, (proxy-IsItem, tt))

abbrev format : Format
format = record {
  is_print = λ c. true;
  duration_text = λ d. codes "1s";
  print_struct = λ fs. codes "{}";
}

abbrev override : List (Text × Text)
override = (codes "schema.cache_path", codes "Where?") ∷ []

config_ArePlain : ArePlainFields format config_fields
unfolding ArePlainFields IsPlain
config_ArePlain = (tt, ((refl, (refl, (refl, (refl, tt)))), (tt, tt), (tt, tt, tt)), (tt, tt, tt))

two_settings :
    setting_lines format config_fields 0
    ≡ codes "schema:" ∷ codes "  schemas: [\"public\"]" ∷ codes "  cache_path: \"a\\nb: 1\"" ∷ []
unfolding setting_lines is_inlined is_left_out pad yaml_value element_texts enclosed quote_text
    quoted_runes quote_rune join
two_settings = refl

abbrev Store : Type 0
Store = Text → Option EnvValue

-- One variable in the environment, and a file with one line.
abbrev koanf : Koanf Store (Option EnvValue) Text
koanf = record {
  new = λ p. none;
  load_file = λ path k. loaded (λ p.
      over (if text_eq p (codes "log.level") then some (single (codes "warn")) else none) (k p));
  load_env = λ prefix callback k. loaded (λ p.
      over
        (if text_eq p (callback (codes "P_LOG_LEVEL") (codes "info")).0
          then some (callback (codes "P_LOG_LEVEL") (codes "info")).1
          else none)
        (k p));
  load_flags = λ flag k.
      loaded (λ p. over (if text_eq p (codes "log.level") then some (single flag) else none) (k p));
  unmarshal = λ k d. loaded (k (codes "log.level"));
  reflected = λ d. config;
  at_path = λ p k. k p;
}

abbrev level : Text
level = codes "log.level"

same_store : (a b : Store) → ◌≡◌ {A = Loaded Store} (loaded a) (loaded b) → a ≡ b
same_store a b e = cc

koanf-Overrides : Overrides koanf level
unfolding text_eq
koanf-Overrides = record {
  in_file = λ path. some (single (codes "warn"));
  in_env = λ prefix callback.
      if text_eq level (callback (codes "P_LOG_LEVEL") (codes "info")).0
      then some (callback (codes "P_LOG_LEVEL") (codes "info")).1
      else none;
  in_flags = λ flag. some (single flag);
  new_empty = refl;
  file_over = λ path k k' e. ap (λ (s : Store). s level) (sym (same_store _ k' e));
  env_over = λ prefix callback k k' e. ap (λ (s : Store). s level) (sym (same_store _ k' e));
  flags_over = λ flag k k' e. ap (λ (s : Store). s level) (sym (same_store _ k' e));
}

override_lines : All (λ (o : Text × Text). IsLine o.1) override
override_lines = ((refl, (refl, (refl, (refl, (refl, (refl, tt)))))), tt)

settings-example_yaml_example :
    settings (example_yaml format config_fields override) ≡ setting_lines format config_fields 0
settings-example_yaml_example =
    settings-example_yaml format config_fields override override_lines config_ArePlain config_paths

from_environment :
    load koanf (codes "P_") (codes "pdb.yaml") none none ≡ loaded (some (single (codes "info")))
unfolding load read_file is_empty read_env read_flags text_eq env_value elem slice_paths env_key
    replace_byte fold_underscores trim_prefix cut_prefix lower_rune
from_environment = refl

load-over_example :
    (k : Store) × (koanf.unmarshal k none ≡ loaded (some (single (codes "info"))))
    × (k level
        ≡ over (from_flags koanf level koanf-Overrides none) (
            over
              (koanf-Overrides.in_env (codes "P_") (env_value (codes "P_") (slice_paths config)))
              (from_file koanf level koanf-Overrides (codes "pdb.yaml"))))
load-over_example =
    load-over koanf level koanf-Overrides (codes "P_") (codes "pdb.yaml") none none
      (some (single (codes "info"))) from_environment
