-- ===== src/Options/Exec.antt =====
-- Exec and attach options of sandbox.rs, with the resource limits they share.
use microsandbox_rb.Common.{
  ℕ, String, Bool, true, Option, List, [], ◌∷◌, ◌++◌, map, Result, ok, ◌>>=◌, if◌then◌else◌,
  traverse, each,
}
use microsandbox_rb.Error.{RubyError}
use microsandbox_rb.Options.Outside.{Outside}
use microsandbox_rb.Options.Conv.{
  opt, opt_or, opt_string, opt_bool, opt_f64, opt_string_map, secs_to_duration, set, flag,
}
use microsandbox_rb.Options.Enums.{RlimitResource, rlimit_resource_from_str}
use microsandbox_rb.Options.HostPath.{is_empty}

-- The calls of the core's exec and attach builders.
pub data OptionCall (o : Outside) : Type 0 where
  args : List String → OptionCall o
  cwd user : String → OptionCall o
  env : String × String → OptionCall o
  timeout : ℕ → OptionCall o
  tty : Bool → OptionCall o
  stdin_pipe : OptionCall o
  stdin_bytes : o.Bytes → OptionCall o
  detach_keys : String → OptionCall o
  rlimit_range : RlimitResource × ℕ × ℕ → OptionCall o

module _ (o : Outside) where
  unfoldable pub args_call : List String → List (OptionCall o)
  unfolding is_empty
  args_call xs = if is_empty xs then [] else args xs ∷ []

  unfoldable pub parse_limit : String × ℕ × ℕ → Result RubyError (RlimitResource × ℕ × ℕ)
  unfolding rlimit_resource_from_str
  parse_limit (name, soft, hard) = do
    resource ← rlimit_resource_from_str name
    ok (resource, soft, hard)

  unfoldable pub parse_rlimits : o.Hash → Result RubyError (List (RlimitResource × ℕ × ℕ))
  unfolding opt_or each parse_limit
  parse_rlimits opts = do limits ← opt_or o o.to_limits [] opts "rlimits"; each parse_limit limits

  pub record AttachOpts : Type 0 where
    pub arguments : List String
    pub working_dir : Option String
    pub as_user : Option String
    pub variables : List (String × String)
    pub keys : Option String
    pub limits : List (RlimitResource × ℕ × ℕ)

  unfoldable pub parse_attach : List String → o.Hash → Result RubyError AttachOpts
  unfolding opt opt_or parse_rlimits
  parse_attach arguments opts = do
    c ← opt_string o opts "cwd"
    u ← opt_string o opts "user"
    e ← opt_string_map o opts "env"
    k ← opt_string o opts "detach_keys"
    r ← parse_rlimits opts
    ok (record {
      arguments = arguments;
      working_dir = c;
      as_user = u;
      variables = e;
      keys = k;
      limits = r;
    })

  unfoldable pub apply_attach : AttachOpts → List (OptionCall o)
  unfolding set args_call
  apply_attach s =
      args_call s.arguments
      ++ set s.working_dir cwd
      ++ set s.as_user user
      ++ map env s.variables
      ++ set s.keys detach_keys
      ++ map rlimit_range s.limits

  pub record ExecOpts : Type 0 where
    pub arguments : List String
    pub working_dir : Option String
    pub as_user : Option String
    pub variables : List (String × String)
    pub limit : Option ℕ
    pub terminal : Bool
    pub stdin : Option o.Bytes
    pub pipe : Bool
    pub limits : List (RlimitResource × ℕ × ℕ)

  unfoldable pub parse_exec : List String → o.Hash → Result RubyError ExecOpts
  unfolding opt opt_or parse_rlimits secs_to_duration
  parse_exec arguments opts = do
    i ← opt o o.to_bytes opts "stdin"
    c ← opt_string o opts "cwd"
    u ← opt_string o opts "user"
    e ← opt_string_map o opts "env"
    secs ← opt_f64 o opts "timeout"
    t ← traverse (secs_to_duration o) secs
    y ← opt_bool o opts "tty"
    p ← opt_bool o opts "stdin_pipe"
    r ← parse_rlimits opts
    ok (record {
      arguments = arguments;
      working_dir = c;
      as_user = u;
      variables = e;
      limit = t;
      terminal = y;
      stdin = i;
      pipe = p;
      limits = r;
    })

  unfoldable pub stdin_call : Bool → Option o.Bytes → List (OptionCall o)
  unfolding set
  stdin_call pipe bytes = if pipe then stdin_pipe ∷ [] else set bytes stdin_bytes

  unfoldable pub apply_exec : ExecOpts → List (OptionCall o)
  unfolding set flag args_call stdin_call
  apply_exec s =
      args_call s.arguments
      ++ set s.working_dir cwd
      ++ set s.as_user user
      ++ map env s.variables
      ++ set s.limit timeout
      ++ flag s.terminal (tty true)
      ++ stdin_call s.pipe s.stdin
      ++ map rlimit_range s.limits
