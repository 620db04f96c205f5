-- ===== src/GoLib.antt =====
-- The packages `net/url` and `time` of Go's library, as far as pkg/natsx/config.go and env.go use them:
-- a parsed URL, and the text of a duration in both directions. Their algorithms are parameters; the
-- only law says what an assignment to the field `User` of a URL does.
use natsx.Base.{Bool, Option, ◌≡◌, ℤ}
use natsx.Base.Text.{Text}

pub record GoLib : Type 1 where
  pub Url : Type 0
  -- `url.Parse`, `none` at an error
  pub parse_url : Text → Option Url
  pub scheme : Url → Text
  pub host : Url → Text
  -- `u.User != nil`
  pub has_user : Url → Bool
  -- `u.User = nil`
  pub without_user : Url → Url
  -- `u.User = url.UserPassword(name, password)`
  pub with_user : Url → Text → Text → Url
  -- `u.String()`
  pub url_string : Url → Text
  -- an assignment forgets the user that was there
  pub with_user_lem :
      (u : Url) (name password : Text)
      → with_user (without_user u) name password ≡ with_user u name password
  -- `time.ParseDuration`, `none` at an error; nanoseconds
  pub parse_duration : Text → Option ℤ
  -- `d.String()`
  pub duration_string : ℤ → Text
