-- ===== src/Options/Secrets.antt =====
-- Secrets and secret-violation responses of sandbox.rs.
use microsandbox_rb.Common.{
  String, Bool, true, not, ◌&&◌, Option, List, [], ◌∷◌, ◌++◌, map, Result, ok, err, ◌>>=◌,
  if◌then◌else◌, traverse, map_err,
}
use microsandbox_rb.Common.Text.{◌=?◌}
use microsandbox_rb.Error.{RubyError, base_error}
use microsandbox_rb.Options.Outside.{Outside}
use microsandbox_rb.Options.Conv.{
  opt, opt_or, opt_string, opt_bool, opt_flag, opt_string_vec, required, set, flag, checked,
}
use microsandbox_rb.Options.HostPath.{is_empty}

pub data ViolationSpec : Type 0 where
  block block_and_log block_and_terminate : ViolationSpec
  passthrough : List String → List String → Bool → ViolationSpec

pub data ViolationCall : Type 0 where
  blocks blocks_and_logs blocks_and_terminates : ViolationCall
  passthrough_host passthrough_host_pattern : String → ViolationCall
  passthrough_all_hosts : Bool → ViolationCall

unfoldable pub apply_violation : ViolationSpec → List ViolationCall
unfolding flag
apply_violation block = blocks ∷ []
apply_violation block_and_log = blocks_and_logs ∷ []
apply_violation block_and_terminate = blocks_and_terminates ∷ []
apply_violation (passthrough hosts patterns all) =
    map passthrough_host hosts
    ++ map passthrough_host_pattern patterns
    ++ flag all (passthrough_all_hosts true)

unfoldable pub violation_from_str : String → Result RubyError ViolationSpec
violation_from_str s =
    if s =? "block"
    then ok block
    else if s =? "block_and_log"
    then ok block_and_log
    else if s =? "block_and_terminate"
    then ok block_and_terminate
    else err (
        base_error
          "unknown on_violation {:?} (expected block/block_and_log/block_and_terminate, or a Hash with :passthrough_hosts/:passthrough_host_patterns/:passthrough_all_hosts)"
          (s ∷ []))

module _ (o : Outside) where
  unfoldable pub parse_passthrough : o.Hash → Result RubyError ViolationSpec
  unfolding opt_or
  parse_passthrough h = do
    hosts ← opt_string_vec o h "passthrough_hosts"
    patterns ← opt_string_vec o h "passthrough_host_patterns"
    all ← opt_bool o h "passthrough_all_hosts"
    ok (passthrough hosts patterns all)

  unfoldable pub parse_violation_spec : o.Value → Result RubyError ViolationSpec
  unfolding violation_from_str parse_passthrough
  parse_violation_spec v = elim (o.to_string v) [
    | ok s ↦ violation_from_str s
    | err _ ↦ do
      h ← map_err (λ _. base_error "on_violation must be a String or a Hash" []) (o.to_hash v)
      parse_passthrough h
  ]

  pub record SecretSpec : Type 0 where
    pub env : String
    pub value : String
    pub hosts : List String
    pub host_patterns : List String
    pub placeholder : Option String
    pub require_tls : Option Bool
    pub inject_headers : Option Bool
    pub inject_basic_auth : Option Bool
    pub inject_query : Option Bool
    pub inject_body : Option Bool
    pub on_violation : Option ViolationSpec

  unfoldable pub parse_secret : o.Hash → Result RubyError SecretSpec
  unfolding opt opt_or parse_violation_spec checked is_empty
  parse_secret h = do
    env ← required o h "env" (base_error "secret requires :env" [])
    value ← required o h "value" (base_error "secret requires :value" [])
    hosts ← opt_string_vec o h "hosts"
    patterns ← opt_string_vec o h "host_patterns"
    _ ← checked (not (is_empty hosts && is_empty patterns)) (
        base_error "secret requires at least one allowed host (:host, :hosts, or :host_patterns)"
          [])
    violation ← opt o ok h "on_violation"
    action ← traverse parse_violation_spec violation
    placeholder ← opt_string o h "placeholder"
    tls ← opt_flag o h "require_tls"
    headers ← opt_flag o h "inject_headers"
    basic ← opt_flag o h "inject_basic_auth"
    query ← opt_flag o h "inject_query"
    body ← opt_flag o h "inject_body"
    ok (record {
      env = env;
      value = value;
      hosts = hosts;
      host_patterns = patterns;
      placeholder = placeholder;
      require_tls = tls;
      inject_headers = headers;
      inject_basic_auth = basic;
      inject_query = query;
      inject_body = body;
      on_violation = action;
    })

pub data SecretCall : Type 0 where
  env value allow_host allow_host_pattern placeholder : String → SecretCall
  require_tls_identity inject_headers inject_basic_auth inject_query inject_body : Bool → SecretCall
  on_violation : List ViolationCall → SecretCall

module _ (o : Outside) where
  unfoldable pub apply_secret : SecretSpec o → List SecretCall
  unfolding set apply_violation
  apply_secret s =
      (env s.env ∷ value s.value ∷ [])
      ++ map allow_host s.hosts
      ++ map allow_host_pattern s.host_patterns
      ++ set s.placeholder placeholder
      ++ set s.require_tls require_tls_identity
      ++ set s.inject_headers inject_headers
      ++ set s.inject_basic_auth inject_basic_auth
      ++ set s.inject_query inject_query
      ++ set s.inject_body inject_body
      ++ set s.on_violation (λ v. on_violation (apply_violation v))
