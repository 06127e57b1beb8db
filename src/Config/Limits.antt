-- ===== src/Config/Limits.antt =====
-- The settings that the program divides by, waits for or counts to.
use arda_wed_gateway.Base.{
  zero, suc, ◌<◌, ◌≡◌, refl, false, Option, none, some, [], arith, Bool-cases, inl, inr,
}
use arda_wed_gateway.Base.Text.{Text, text_eq}
use arda_wed_gateway.Base.Word.{ℤ, pos, negsuc}
use arda_wed_gateway.Config.{Config, getenv, positive_or, getenv_duration, getenv_int, load}

abbrev pub IsPositive : ℤ → Type 0
IsPositive (pos n) = 0 < n
IsPositive (negsuc n) = 0 < zero

pub record IsUsable (c : Config) : Type 0 where
  pub send_interval : IsPositive c.queue_send_interval
  pub max_depth : IsPositive c.queue_max_depth
  pub debounce : IsPositive c.suggest_debounce
  pub recent_lines : IsPositive c.suggest_recent_lines
  pub timeout : IsPositive c.open_router_timeout
  pub has_host : text_eq c.host [] ≡ false
  pub has_port : text_eq c.port [] ≡ false
  pub has_path : text_eq c.sqlite_path [] ≡ false

positive_or-IsPositive : (d : ℤ) (o : Option ℤ) → IsPositive d → IsPositive (positive_or d o)
unfolding positive_or
positive_or-IsPositive d none h = h
positive_or-IsPositive d (some (negsuc n)) h = h
positive_or-IsPositive d (some (pos zero)) h = h
positive_or-IsPositive d (some (pos (suc n))) h = omega arith

module _ (env : Text → Text) (parse : Text → Option ℤ) (key : Text) where
  getenv_int-IsPositive : (d : ℤ) → IsPositive d → IsPositive (getenv_int env parse key d)
  unfolding getenv_int
  getenv_int-IsPositive d h = elim (Bool-cases (text_eq (env key) [])) [
    | inl e ↦ rw e h
    | inr e ↦ rw e (positive_or-IsPositive d (parse (env key)) h)
  ]

  getenv_duration-IsPositive : (d : ℤ) → IsPositive d → IsPositive (getenv_duration env parse key d)
  unfolding getenv_duration
  getenv_duration-IsPositive d h = elim (Bool-cases (text_eq (env key) [])) [
    | inl e ↦ rw e h
    | inr e ↦ rw e (positive_or-IsPositive d (parse (env key)) h)
  ]

getenv-filled :
    (env : Text → Text) (key d : Text)
    → text_eq d [] ≡ false
    → text_eq (getenv env key d) [] ≡ false
unfolding getenv
getenv-filled env key d h = ground arith

-- Whatever the environment holds and whatever its numbers parse to: the interval of the queue, which
-- a ticker needs to be positive, its maximal depth, the delays and the number of lines are positive,
-- and the host, the port and the path of the database are not empty.
pub load-IsUsable :
    (env : Text → Text) (atoi parse_duration : Text → Option ℤ)
    → IsUsable (load env atoi parse_duration)
unfolding load text_eq
load-IsUsable env atoi parse_duration = record {
  send_interval = getenv_duration-IsPositive env parse_duration _ _ (omega arith);
  max_depth = getenv_int-IsPositive env atoi _ _ (omega arith);
  debounce = getenv_duration-IsPositive env parse_duration _ _ (omega arith);
  recent_lines = getenv_int-IsPositive env atoi _ _ (omega arith);
  timeout = getenv_duration-IsPositive env parse_duration _ _ (omega arith);
  has_host = getenv-filled env _ _ refl;
  has_port = getenv-filled env _ _ refl;
  has_path = getenv-filled env _ _ refl;
}
