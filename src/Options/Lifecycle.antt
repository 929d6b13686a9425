-- ===== src/Options/Lifecycle.antt =====
-- Restart and destroy options and log options of sandbox.rs.
use microsandbox_rb.Common.{
  ℕ, String, Bool, Option, none, some, List, [], ◌∷◌, ◌++◌, Result, ok, err, ◌>>=◌, if◌then◌else◌,
  traverse, map_err,
}
use microsandbox_rb.Common.Text.{◌=?◌}
use microsandbox_rb.Error.{RubyError, base_error}
use microsandbox_rb.Options.Outside.{Outside}
use microsandbox_rb.Options.Conv.{
  opt, opt_or, opt_string, opt_bool, opt_f64, opt_string_vec, secs_to_duration,
}

pub record RestartOptions : Type 0 where
  pub force : Bool
  pub detached : Bool
  pub timeout : ℕ

pub record DestroyOptions : Type 0 where
  pub force : Bool
  pub timeout : ℕ

pub data LogSource : Type 0 where
  stdout stderr output system : LogSource

abbrev pub every_source : List LogSource
every_source = stdout ∷ stderr ∷ output ∷ system ∷ []

unfoldable pub push_source : List LogSource → String → Result RubyError (List LogSource)
push_source sources s =
    if s =? "stdout"
    then ok (sources ++ (stdout ∷ []))
    else if s =? "stderr"
    then ok (sources ++ (stderr ∷ []))
    else if s =? "output"
    then ok (sources ++ (output ∷ []))
    else if s =? "system"
    then ok (sources ++ (system ∷ []))
    else if s =? "all"
    then ok every_source
    else err (base_error "unknown log source {:?}" (s ∷ []))

unfoldable pub push_sources : List LogSource → List String → Result RubyError (List LogSource)
unfolding push_source
push_sources sources [] = ok sources
push_sources sources (s ∷ ss) = do next ← push_source sources s; push_sources next ss

module _ (o : Outside) where
  -- `default_timeout` is the core's, of its `Default`.
  unfoldable pub timeout_or : ℕ → o.Hash → Result RubyError ℕ
  unfolding opt secs_to_duration
  timeout_or default_timeout opts = do
    secs ← opt_f64 o opts "timeout"
    t ← traverse (secs_to_duration o) secs
    ok (elim t [ none ↦ default_timeout | some d ↦ d ])

  unfoldable pub restart_options : ℕ → o.Hash → Result RubyError RestartOptions
  unfolding opt_or timeout_or
  restart_options default_timeout opts = do
    force ← opt_bool o opts "force"
    detached ← opt_bool o opts "detached"
    timeout ← timeout_or default_timeout opts
    ok (record { force = force; detached = detached; timeout = timeout })

  unfoldable pub destroy_options : ℕ → o.Hash → Result RubyError DestroyOptions
  unfolding opt_or timeout_or
  destroy_options default_timeout opts = do
    force ← opt_bool o opts "force"
    timeout ← timeout_or default_timeout opts
    ok (record { force = force; timeout = timeout })

  unfoldable pub parse_log_sources : o.Hash → Result RubyError (List LogSource)
  unfolding opt_or push_sources
  parse_log_sources opts = do texts ← opt_string_vec o opts "sources"; push_sources [] texts

  pub record LogOptions : Type 0 where
    pub tail : Option ℕ
    pub since : Option o.DateTime
    pub until : Option o.DateTime
    pub sources : List LogSource

  unfoldable pub opt_datetime : o.Hash → String → Result RubyError (Option o.DateTime)
  unfolding opt
  opt_datetime opts key = do
    ms ← opt_f64 o opts key
    ok (elim ms [ none ↦ none | some m ↦ o.ms_to_datetime m ])

  unfoldable pub parse_log_options : o.Hash → Result RubyError LogOptions
  unfolding opt opt_datetime parse_log_sources
  parse_log_options opts = do
    tail ← opt o o.to_usize opts "tail"
    since ← opt_datetime opts "since_ms"
    until ← opt_datetime opts "until_ms"
    sources ← parse_log_sources opts
    ok (record { tail = tail; since = since; until = until; sources = sources })

  pub data LogStreamStart : Type 0 where
    beginning : LogStreamStart
    since_time : o.DateTime → LogStreamStart
    from_cursor : o.LogCursor → LogStreamStart

  pub record LogStreamOptions : Type 0 where
    pub sources : List LogSource
    pub start : LogStreamStart
    pub until : Option o.DateTime
    pub follow : Bool

  unfoldable pub start_since : o.Hash → Result RubyError LogStreamStart
  unfolding opt_datetime
  start_since opts = do
    since ← opt_datetime opts "since_ms"
    ok (elim since [ none ↦ beginning | some t ↦ since_time t ])

  unfoldable pub stream_start : Option String → o.Hash → Result RubyError LogStreamStart
  unfolding start_since
  stream_start none opts = start_since opts
  stream_start (some cursor) opts = do
    c ← map_err (λ _. base_error "invalid log cursor {:?}" (cursor ∷ [])) (o.log_cursor cursor)
    ok (from_cursor c)

  unfoldable pub parse_log_stream_options : o.Hash → Result RubyError LogStreamOptions
  unfolding opt opt_or stream_start parse_log_sources opt_datetime
  parse_log_stream_options opts = do
    cursor ← opt_string o opts "from_cursor"
    start ← stream_start cursor opts
    sources ← parse_log_sources opts
    until ← opt_datetime opts "until_ms"
    follow ← opt_bool o opts "follow"
    ok (record { sources = sources; start = start; until = until; follow = follow })
