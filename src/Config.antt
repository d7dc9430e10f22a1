-- ===== src/Config.antt =====
-- Settings from the environment: `getEnv`, `getEnvAsInt` and `getEnvAsBool` of
-- cmd/openai-gate/main.go, and `getEnvAsInt` of internal/sip/sip.go.
use openai_gate.Base.{
  Bool, true, false, ◌||◌, Option, none, some, Bytes, bytes_eq, codes, ◌==◌, if◌then◌else◌,
}
use openai_gate.Base.Assoc.{Assoc, lookup}
use openai_gate.Text.Decimal.Int.{ℤ, pos, parse_int}

abbrev pub Environment : Type 0
Environment = Assoc Bytes Bytes

abbrev pub or_fallback : {A : Type 0} → A → Option A → A
or_fallback fallback none = fallback
or_fallback fallback (some a) = a

unfoldable pub get_env : Environment → Bytes → Bytes → Bytes
get_env env key fallback = or_fallback fallback (lookup key env)

abbrev pub and_then : {A B : Type 0} → Option A → (A → Option B) → Option B
and_then none f = none
and_then (some a) f = f a

-- `strconv.Atoi` is `ParseInt` of 64 bits here.
unfoldable pub get_env_as_int : Environment → Bytes → ℤ → ℤ
get_env_as_int env key fallback = or_fallback fallback (and_then (lookup key env) parse_int)

-- `strconv.ParseBool`
unfoldable pub parse_bool : Bytes → Option Bool
parse_bool s =
    if s == codes "1"
      || s == codes "t"
      || s == codes "T"
      || s == codes "TRUE"
      || s == codes "true"
      || s == codes "True"
    then some true
    else if s == codes "0"
        || s == codes "f"
        || s == codes "F"
        || s == codes "FALSE"
        || s == codes "false"
        || s == codes "False"
    then some false
    else none

unfoldable pub get_env_as_bool : Environment → Bytes → Bool → Bool
unfolding parse_bool
get_env_as_bool env key fallback = or_fallback fallback (and_then (lookup key env) parse_bool)

-- What `main` reads of the environment, the values of a `.env` file included.
pub record Settings : Type 0 where
  pub sip_host : Bytes
  pub sip_public_host : Bytes
  pub sip_port : ℤ
  pub http_port : ℤ
  pub context_api_port : ℤ
  pub enable_sip : Bool
  pub enable_web : Bool
  pub data_dir : Bytes
  pub enable_context_api : Bool
  pub api_key : Bytes

unfoldable pub settings : Environment → Settings
unfolding get_env get_env_as_int get_env_as_bool
settings env = record {
  sip_host = get_env env (codes "SIP_HOST") (codes "0.0.0.0");
  sip_public_host = get_env env (codes "SIP_PUBLIC_HOST") (codes "0.0.0.0");
  sip_port = get_env_as_int env (codes "SIP_PORT") (pos 5060);
  http_port = get_env_as_int env (codes "HTTP_PORT") (pos 8080);
  context_api_port = get_env_as_int env (codes "CONTEXT_API_PORT") (pos 8081);
  enable_sip = get_env_as_bool env (codes "ENABLE_SIP") true;
  enable_web = get_env_as_bool env (codes "ENABLE_WEB") true;
  data_dir = get_env env (codes "DATA_DIR") (codes "/app/data");
  enable_context_api = get_env_as_bool env (codes "ENABLE_CONTEXT_API") true;
  api_key = get_env env (codes "OPENAI_API_KEY") (codes "");
}
