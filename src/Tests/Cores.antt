-- ===== src/Tests/Cores.antt =====
-- Small cores that answer every request, most of them with an error.
use microsandbox_rb.Common.{String, true, some, [], ok, err}
use microsandbox_rb.Error.{MicrosandboxError, custom, AgentClientError, unsupported_operation}
use microsandbox_rb.Runtime.Identity.{to_bits}
use microsandbox_rb.Runtime.Nogvl.{Run, value}
use microsandbox_rb.Backend.Build.{ladder}
use microsandbox_rb.Backend.State.{World}
use microsandbox_rb.Native.Objects.{Objects}
use microsandbox_rb.Native.Sandbox.Requests.{SandboxRequest, SandboxReply}
use microsandbox_rb.Native.Handle.Requests.{HandleRequest, HandleReply}
use microsandbox_rb.Native.Volume.Requests.{VolumeRequest, VolumeReply}
use microsandbox_rb.Native.Agent.{AgentRequest, AgentReply}
use microsandbox_rb.Tests.Fixtures.{core, parent, local_config, outside}

-- Every object is named by a text.
abbrev pub objects : Objects
objects = record {
  Sandbox = String;
  SandboxHandle = String;
  Exec = String;
  Sink = String;
  ReadStream = String;
  WriteSink = String;
  Logs = String;
  Metrics = String;
  Pull = String;
  Ssh = String;
  Sftp = String;
  SshServer = String;
  Bridge = String;
  sandbox_name = λ s. s;
  sandbox_id = λ s. s;
  owns_lifecycle = λ s. true;
  Plan = String;
  plan_json = λ p. ok p;
  restart_timeout = 10;
  destroy_timeout = 10;
}

abbrev pub world : World core
world = record {
  slot = some (record { builder = parent; config = local_config });
  selection = ladder;
  owner = to_bits parent;
  next_scope = 1;
  scopes = [];
  dropped = [];
  leaked = [];
}

abbrev pub refused : AgentClientError
refused = unsupported_operation

abbrev pub failed : MicrosandboxError
failed = custom "no such thing"

-- The core fails but for these requests.
abbrev pub sandbox_answers :
    (q : SandboxRequest outside objects) → Run (SandboxReply outside objects q)
sandbox_answers (SandboxRequest.create _ _) = value (err failed)
sandbox_answers (SandboxRequest.create_with_pull_progress _ _) = value (err failed)
sandbox_answers (SandboxRequest.connect_or_create _ _) = value (err failed)
sandbox_answers (SandboxRequest.start _) = value (err failed)
sandbox_answers (SandboxRequest.start_detached _) = value (err failed)
sandbox_answers (SandboxRequest.get_by_name _) = value (err failed)
sandbox_answers (SandboxRequest.remove _) = value (err failed)
sandbox_answers SandboxRequest.list = value (err failed)
sandbox_answers (SandboxRequest.list_with _ _ _) = value (err failed)
sandbox_answers (SandboxRequest.exec_with _ _ _) = value (err failed)
sandbox_answers (SandboxRequest.exec_stream_with _ _ _) = value (ok "stream")
sandbox_answers (SandboxRequest.shell_with _ _ _) = value (err failed)
sandbox_answers (SandboxRequest.shell_stream_with _ _ _) = value (err failed)
sandbox_answers (SandboxRequest.attach_with _ _ _) = value (err failed)
sandbox_answers (SandboxRequest.exec_default_with _ _) = value (err failed)
sandbox_answers (SandboxRequest.exec_default_stream_with _ _) = value (err failed)
sandbox_answers (SandboxRequest.attach_default_with _ _) = value (err failed)
sandbox_answers (SandboxRequest.stop _) = value (err failed)
sandbox_answers (SandboxRequest.stop_and_wait _) = value (err failed)
sandbox_answers (SandboxRequest.kill _) = value (err failed)
sandbox_answers (SandboxRequest.drain _) = value (err failed)
sandbox_answers (SandboxRequest.wait _) = value (err failed)
sandbox_answers (SandboxRequest.status _) = value (err failed)
sandbox_answers (SandboxRequest.detach _) = value tt
sandbox_answers (SandboxRequest.metrics _) = value (err failed)
sandbox_answers (SandboxRequest.ping _) = value (err failed)
sandbox_answers (SandboxRequest.touch _) = value (err failed)
sandbox_answers (SandboxRequest.attach_shell _) = value (err failed)
sandbox_answers (SandboxRequest.wait_for_status _ _) = value (err failed)
sandbox_answers (SandboxRequest.restart_with _ _) = value (err failed)
sandbox_answers (SandboxRequest.destroy_with _ _) = value (err failed)
sandbox_answers (SandboxRequest.modify _ _) = value (err failed)
sandbox_answers (SandboxRequest.logs _ _) = value (err failed)
sandbox_answers (SandboxRequest.log_stream _ _) = value (err failed)
sandbox_answers (SandboxRequest.metrics_stream _ _) = value "object"
sandbox_answers (SandboxRequest.fs_read _ _) = value (err failed)
sandbox_answers (SandboxRequest.fs_read_text _ _) = value (err failed)
sandbox_answers (SandboxRequest.fs_list _ _) = value (err failed)
sandbox_answers (SandboxRequest.fs_mkdir _ _) = value (err failed)
sandbox_answers (SandboxRequest.fs_remove _ _) = value (err failed)
sandbox_answers (SandboxRequest.fs_remove_dir _ _) = value (err failed)
sandbox_answers (SandboxRequest.fs_exists _ _) = value (err failed)
sandbox_answers (SandboxRequest.fs_stat _ _) = value (err failed)
sandbox_answers (SandboxRequest.fs_read_stream _ _) = value (err failed)
sandbox_answers (SandboxRequest.fs_write_stream _ _) = value (err failed)
sandbox_answers (SandboxRequest.fs_write _ _ _) = value (ok tt)
sandbox_answers (SandboxRequest.fs_copy _ _ _) = value (err failed)
sandbox_answers (SandboxRequest.fs_rename _ _ _) = value (err failed)
sandbox_answers (SandboxRequest.copy_from_host _ _ _) = value (err failed)
sandbox_answers (SandboxRequest.copy_to_host _ _ _) = value (err failed)
sandbox_answers (SandboxRequest.ssh_open_client _ _) = value (err failed)
sandbox_answers (SandboxRequest.ssh_prepare_server _ _) = value (err failed)

-- The core fails but for these requests.
abbrev pub handle_answers :
    (q : HandleRequest outside objects) → Run (HandleReply outside objects q)
handle_answers (HandleRequest.stop _) = value (err failed)
handle_answers (HandleRequest.kill _) = value (err failed)
handle_answers (HandleRequest.request_stop _) = value (err failed)
handle_answers (HandleRequest.request_kill _) = value (err failed)
handle_answers (HandleRequest.request_drain _) = value (err failed)
handle_answers (HandleRequest.wait_until_stopped _) = value (err failed)
handle_answers (HandleRequest.ping _) = value (err failed)
handle_answers (HandleRequest.touch _) = value (err failed)
handle_answers (HandleRequest.stop_with_timeout _ _) = value (err failed)
handle_answers (HandleRequest.kill_with_timeout _ _) = value (err failed)
handle_answers (HandleRequest.connect_or_start _ _) = value (err failed)
handle_answers (HandleRequest.wait_for_status _ _) = value (err failed)
handle_answers (HandleRequest.restart_with _ _) = value (ok "again")
handle_answers (HandleRequest.destroy_with _ _) = value (err failed)
handle_answers (HandleRequest.snapshot _ _) = value (err failed)
handle_answers (HandleRequest.modify _ _) = value (err failed)

-- The core fails but for these requests.
abbrev pub volume_answers : (q : VolumeRequest core outside) → Run (VolumeReply core outside q)
volume_answers (VolumeRequest.create _ _) = value (err failed)
volume_answers (VolumeRequest.get_by_name _) = value (err failed)
volume_answers (VolumeRequest.remove _) = value (err failed)
volume_answers VolumeRequest.get_default = value (err failed)
volume_answers VolumeRequest.list = value (err failed)
volume_answers (VolumeRequest.read _ _) = value (err failed)
volume_answers (VolumeRequest.read_to_string _ _) = value (err failed)
volume_answers (VolumeRequest.list_files _ _) = value (err failed)
volume_answers (VolumeRequest.mkdir _ _) = value (ok tt)
volume_answers (VolumeRequest.remove_file _ _) = value (err failed)
volume_answers (VolumeRequest.remove_dir _ _) = value (err failed)
volume_answers (VolumeRequest.exists _ _) = value (err failed)
volume_answers (VolumeRequest.stat _ _) = value (err failed)
volume_answers (VolumeRequest.write _ _ _) = value (err failed)
volume_answers (VolumeRequest.copy _ _ _) = value (err failed)
volume_answers (VolumeRequest.rename _ _ _) = value (err failed)

-- The core fails but for these requests.
abbrev pub agent_answers : (q : AgentRequest outside objects) → Run (AgentReply outside objects q)
agent_answers (AgentRequest.connect_sandbox _ _) = value (ok "bridge")
agent_answers (AgentRequest.connect_path _ _) = value (err refused)
agent_answers (AgentRequest.request _ _ _) = value (err refused)
agent_answers (AgentRequest.stream_open _ _ _) = value (err refused)
agent_answers (AgentRequest.stream_next _ _) = value (err refused)
agent_answers (AgentRequest.stream_close _ _) = value tt
agent_answers (AgentRequest.send _ _ _ _) = value (err refused)
agent_answers (AgentRequest.close _) = value tt
