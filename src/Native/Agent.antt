-- ===== src/Native/Agent.antt =====
-- agent.rs: the raw agent client, its deadlines and its methods.
pub mod Deadlines
use microsandbox_rb.Common.{
  ℕ, String, Bool, ◌&&◌, Option, none, some, List, [], ◌∷◌, Result, ok, err, map_err, ◌>>=◌,
  if◌then◌else◌,
}
use microsandbox_rb.Error.{
  RubyError, MicrosandboxError, AgentClientError, agent_client, base_error, to_ruby,
}
use microsandbox_rb.Runtime.Guard.{ForkGuarded, guarded, get_in}
use microsandbox_rb.Backend.Build.{Core}
use microsandbox_rb.Backend.State.{Backend, World}
use microsandbox_rb.Backend.Ops.{ensure_this_process_backend, default_backend}
use microsandbox_rb.Options.Outside.{Outside}
use microsandbox_rb.Values.Hashes.{RubyValue, nil, str, bytes, nat, hash_of, set_all, or_nil}
use microsandbox_rb.Values.Events.{BridgeFrame, frame_to_hash}
use microsandbox_rb.Native.Call.{Site, Call, lift, and_then, get, on_world, asked_with, method}
use microsandbox_rb.Native.Objects.{Objects, Given, plain, agent_client as new_client}

-- `to_ruby_agent`
unfoldable pub to_ruby_agent : AgentClientError → RubyError
unfolding to_ruby
to_ruby_agent e = to_ruby (agent_client e)

abbrev pub agent_shaped : {A B : Type 0} → (A → B) → Result AgentClientError A → Result RubyError B
agent_shaped f (ok a) = ok (f a)
agent_shaped f (err e) = err (to_ruby_agent e)

module _ (o : Outside) where
  unfoldable pub dur : Option o.F64 → Result RubyError (Option ℕ)
  dur none = ok none
  dur (some t) =
      if o.is_finite t && o.is_nonneg t
      then (do
        d ←
            map_err (λ e. base_error "timeout {t} seconds is out of range: {e}" (o.show t ∷ e ∷ []))
              (o.duration t)
        ok (some d))
      else err (
          base_error "timeout must be a non-negative, finite number of seconds (got {t})"
            (o.show t ∷ []))

module _ (o : Outside) (t : Objects) where
  -- A connection is made with a deadline, or with the core's own.
  pub data AgentRequest : Type 0 where
    connect_sandbox connect_path : String → Option ℕ → AgentRequest
    request stream_open : t.Bridge → ℕ → o.Bytes → AgentRequest
    stream_next stream_close : t.Bridge → ℕ → AgentRequest
    send : t.Bridge → ℕ → ℕ → o.Bytes → AgentRequest
    close : t.Bridge → AgentRequest

  abbrev pub AgentReply : AgentRequest → Type 0
  AgentReply (connect_sandbox _ _) = Result AgentClientError t.Bridge
  AgentReply (connect_path _ _) = Result AgentClientError t.Bridge
  AgentReply (request _ _ _) = Result AgentClientError (BridgeFrame o)
  AgentReply (stream_open _ _ _) = Result AgentClientError (ℕ × ℕ)
  AgentReply (stream_next _ _) = Result AgentClientError (Option (BridgeFrame o))
  AgentReply (stream_close _ _) = Unit
  AgentReply (send _ _ _ _) = Result AgentClientError (Unit {0})
  AgentReply (close _) = Unit

module _ {core : Core} (o : Outside) (t : Objects) (site : Site core (AgentReply o t)) where
  abbrev pub Answer : Type 0
  Answer = Given core o t

  abbrev from_bridge : t.Bridge → Answer
  from_bridge b = new_client (guarded site.cur "Microsandbox::AgentClient" b)

  unfoldable pub connect_sandbox_to : String → Option o.F64 → Call site Answer
  connect_sandbox_to name timeout =
      asked_with site (dur o timeout) (AgentRequest.connect_sandbox name)
        (λ _. agent_shaped from_bridge)

  unfoldable pub connect_path_to : String → Option o.F64 → Call site Answer
  connect_path_to path timeout =
      asked_with site (dur o timeout) (AgentRequest.connect_path path)
        (λ _. agent_shaped from_bridge)

  -- The core derives the path from the default backend, with no round trip.
  unfoldable pub socket_ensured :
      (Backend core → Result MicrosandboxError String)
      → Result RubyError (Unit {0}) × World core
      → Result RubyError Answer × World core
  unfolding default_backend to_ruby
  socket_ensured path_of (err e, w) = (err e, w)
  socket_ensured path_of (ok _, w) =
      let (b, w') = default_backend core site.cur site.env w in
      ((map_err to_ruby (path_of b) >>= λ p. ok (plain (str p))), w')

  unfoldable pub socket_path : (Backend core → Result MicrosandboxError String) → Call site Answer
  socket_path path_of =
      on_world site
        (λ w. socket_ensured path_of (ensure_this_process_backend core site.cur site.env w))

  module _ (g : ForkGuarded t.Bridge) where
    unfoldable pub request_frame : ℕ → o.Bytes → Call site Answer
    request_frame flags body =
        method site g (λ b. AgentRequest.request b flags body)
          (λ _. agent_shaped (λ f. plain (frame_to_hash o f)))

    unfoldable pub open_stream : ℕ → o.Bytes → Call site Answer
    open_stream flags body =
        method site g (λ b. AgentRequest.stream_open b flags body)
          (λ _.
            agent_shaped (λ p. plain (hash_of o (("id", nat o p.0) ∷ ("handle", nat o p.1) ∷ []))))

    unfoldable pub next_frame : ℕ → Call site Answer
    next_frame handle =
        method site g (λ b. AgentRequest.stream_next b handle)
          (λ _. agent_shaped (λ f. plain (or_nil o (frame_to_hash o) f)))

    unfoldable pub close_stream : ℕ → Call site Answer
    close_stream handle =
        method site g (λ b. AgentRequest.stream_close b handle) (λ _ _. ok (plain nil))

    unfoldable pub send_frame : ℕ → ℕ → o.Bytes → Call site Answer
    send_frame id flags body =
        method site g (λ b. AgentRequest.send b id flags body) (λ _. agent_shaped (λ _. plain nil))

    -- The cached frame, with no round trip.
    unfoldable pub ready_bytes : (t.Bridge → Result AgentClientError o.Bytes) → Call site Answer
    ready_bytes cached =
        and_then site (get site g) (λ b. lift site (agent_shaped (λ f. plain (bytes f)) (cached b)))

    unfoldable pub close_client : Call site Answer
    close_client = method site g (λ b. AgentRequest.close b) (λ _ _. ok (plain nil))
