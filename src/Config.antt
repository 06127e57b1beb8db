-- ===== src/Config.antt =====
-- backend/internal/config/config.go: the settings, read from the environment with defaults.
-- The environment, strconv.Atoi and time.ParseDuration are arguments; the latter two return `none`
-- where they return an error.
pub mod Limits
use arda_wed_gateway.Base.{
  ℕ, zero, suc, ◌*◌, Bool, true, false, Option, none, some, [], ◌++◌, if◌then◌else◌,
}
use arda_wed_gateway.Base.Text.{Text, codes, text_eq}
use arda_wed_gateway.Base.Word.{ℤ, pos, negsuc}

-- Durations are in nanoseconds.
pub record Config : Type 0 where
  pub host : Text
  pub port : Text
  pub build_version : Text
  pub build_commit : Text
  pub queue_send_interval : ℤ
  pub queue_max_depth : ℤ
  pub sqlite_path : Text
  pub suggest_debounce : ℤ
  pub suggest_recent_lines : ℤ
  pub open_router_base_url : Text
  pub open_router_model : Text
  pub open_router_api_key : Text
  pub open_router_timeout : ℤ

abbrev pub millisecond : ℕ
millisecond = 1_000_000

abbrev pub second : ℕ
second = 1_000_000_000

unfoldable pub getenv : (Text → Text) → Text → Text → Text
getenv env key fallback = if text_eq (env key) [] then fallback else env key

-- A parsed number, unless parsing failed or it is not positive.
unfoldable pub positive_or : ℤ → Option ℤ → ℤ
positive_or fallback none = fallback
positive_or fallback (some (negsuc n)) = fallback
positive_or fallback (some (pos zero)) = fallback
positive_or fallback (some (pos (suc n))) = pos (suc n)

unfoldable pub getenv_duration : (Text → Text) → (Text → Option ℤ) → Text → ℤ → ℤ
unfolding positive_or
getenv_duration env parse_duration key fallback =
    if text_eq (env key) [] then fallback else positive_or fallback (parse_duration (env key))

unfoldable pub getenv_int : (Text → Text) → (Text → Option ℤ) → Text → ℤ → ℤ
unfolding positive_or
getenv_int env atoi key fallback =
    if text_eq (env key) [] then fallback else positive_or fallback (atoi (env key))

-- Load
unfoldable pub load : (Text → Text) → (Text → Option ℤ) → (Text → Option ℤ) → Config
unfolding getenv getenv_duration getenv_int
load env atoi parse_duration = record {
  host = getenv env (codes "APP_HOST") (codes "0.0.0.0");
  port = getenv env (codes "APP_PORT") (codes "8080");
  build_version = getenv env (codes "APP_BUILD_VERSION") (codes "dev");
  build_commit = getenv env (codes "APP_BUILD_COMMIT") (codes "local");
  queue_send_interval =
      getenv_duration env parse_duration (codes "APP_QUEUE_SEND_INTERVAL")
        (pos (500 * millisecond));
  queue_max_depth = getenv_int env atoi (codes "APP_QUEUE_MAX_DEPTH") (pos 20);
  sqlite_path = getenv env (codes "APP_SQLITE_PATH") (codes "tmp/gateway.sqlite");
  suggest_debounce =
      getenv_duration env parse_duration (codes "APP_SUGGEST_DEBOUNCE") (pos (700 * millisecond));
  suggest_recent_lines = getenv_int env atoi (codes "APP_SUGGEST_RECENT_LINES") (pos 80);
  open_router_base_url =
      getenv env (codes "APP_OPENROUTER_BASE_URL") (codes "https://openrouter.ai/api/v1");
  open_router_model = getenv env (codes "APP_OPENROUTER_MODEL") (codes "openai/gpt-4o-mini");
  open_router_api_key = env (codes "APP_OPENROUTER_API_KEY");
  open_router_timeout =
      getenv_duration env parse_duration (codes "APP_OPENROUTER_TIMEOUT") (pos (120 * second));
}

-- Address
unfoldable pub address : Config → Text
address c = c.host ++ (codes ":" ++ c.port)

-- The time that ShutdownContext gives, in nanoseconds.
abbrev pub shutdown_timeout : ℕ
shutdown_timeout = 10 * second
