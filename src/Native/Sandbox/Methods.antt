-- ===== src/Native/Sandbox/Methods.antt =====
-- The methods that `define` of sandbox.rs registers for a live sandbox, by name and arguments, but
-- for those that answer without the core: `name`, `id` and `owns_lifecycle`.
use microsandbox_rb.Common.{String, List}
use microsandbox_rb.Runtime.Guard.{ForkGuarded}
use microsandbox_rb.Backend.Build.{Core}
use microsandbox_rb.Options.Outside.{Outside}
use microsandbox_rb.Native.Call.{Site, Call}
use microsandbox_rb.Native.Objects.{Objects}
use microsandbox_rb.Native.Sandbox.Requests.{SandboxReply}
use microsandbox_rb.Native.Sandbox.Class.{Answer}
use microsandbox_rb.Native.Sandbox.Live
use microsandbox_rb.Native.Sandbox.Files

pub data Method (o : Outside) : Type 0 where
  exec : String → List String → o.Hash → Method o
  shell : String → o.Hash → Method o
  exec_stream : String → List String → o.Hash → Method o
  exec_default : o.Hash → Method o
  exec_default_stream : o.Hash → Method o
  shell_stream : String → o.Hash → Method o
  stop : Method o
  stop_and_wait : Method o
  kill : Method o
  drain : Method o
  wait : Method o
  wait_for_status : String → Method o
  restart : o.Hash → Method o
  destroy : o.Hash → Method o
  status : Method o
  detach : Method o
  metrics : Method o
  ping : Method o
  touch : Method o
  modify : o.Hash → Method o
  logs : o.Hash → Method o
  metrics_stream : o.F64 → Method o
  log_stream : o.Hash → Method o
  fs_read : String → Method o
  fs_read_text : String → Method o
  fs_write : String → o.Bytes → Method o
  fs_list : String → Method o
  fs_mkdir : String → Method o
  fs_remove : String → Method o
  fs_remove_dir : String → Method o
  fs_copy : String → String → Method o
  fs_rename : String → String → Method o
  fs_exists : String → Method o
  fs_stat : String → Method o
  fs_copy_from_host : String → String → Method o
  fs_copy_to_host : String → String → Method o
  fs_read_stream : String → Method o
  fs_write_stream : String → Method o
  ssh_open_client : o.Hash → Method o
  ssh_prepare_server : o.Hash → Method o
  attach : String → List String → o.Hash → Method o
  attach_shell : Method o
  attach_default : o.Hash → Method o

module _ {core : Core} (o : Outside) (t : Objects) (site : Site core (SandboxReply o t)) where
  -- A call of a method on the sandbox that `g` guards.
  unfoldable pub run : ForkGuarded t.Sandbox → Method o → Call site (Answer o t site)
  unfolding Live.exec Live.shell Live.exec_stream Live.exec_default Live.exec_default_stream
      Live.shell_stream Live.stop Live.stop_and_wait Live.kill Live.drain Live.wait
      Live.wait_for_status Live.restart Live.destroy Live.status Live.detach Live.metrics Live.ping
      Live.touch Live.modify Live.logs Live.metrics_stream Live.log_stream Files.fs_read
      Files.fs_read_text Files.fs_write Files.fs_list Files.fs_mkdir Files.fs_remove
      Files.fs_remove_dir Files.fs_copy Files.fs_rename Files.fs_exists Files.fs_stat
      Files.fs_copy_from_host Files.fs_copy_to_host Files.fs_read_stream Files.fs_write_stream
      Files.ssh_open_client Files.ssh_prepare_server Files.attach Files.attach_shell
      Files.attach_default
  run g (exec a b c) = Live.exec o t site g a b c
  run g (shell a b) = Live.shell o t site g a b
  run g (exec_stream a b c) = Live.exec_stream o t site g a b c
  run g (exec_default a) = Live.exec_default o t site g a
  run g (exec_default_stream a) = Live.exec_default_stream o t site g a
  run g (shell_stream a b) = Live.shell_stream o t site g a b
  run g stop = Live.stop o t site g
  run g stop_and_wait = Live.stop_and_wait o t site g
  run g kill = Live.kill o t site g
  run g drain = Live.drain o t site g
  run g wait = Live.wait o t site g
  run g (wait_for_status a) = Live.wait_for_status o t site g a
  run g (restart a) = Live.restart o t site g a
  run g (destroy a) = Live.destroy o t site g a
  run g status = Live.status o t site g
  run g detach = Live.detach o t site g
  run g metrics = Live.metrics o t site g
  run g ping = Live.ping o t site g
  run g touch = Live.touch o t site g
  run g (modify a) = Live.modify o t site g a
  run g (logs a) = Live.logs o t site g a
  run g (metrics_stream a) = Live.metrics_stream o t site g a
  run g (log_stream a) = Live.log_stream o t site g a
  run g (fs_read a) = Files.fs_read o t site g a
  run g (fs_read_text a) = Files.fs_read_text o t site g a
  run g (fs_write a b) = Files.fs_write o t site g a b
  run g (fs_list a) = Files.fs_list o t site g a
  run g (fs_mkdir a) = Files.fs_mkdir o t site g a
  run g (fs_remove a) = Files.fs_remove o t site g a
  run g (fs_remove_dir a) = Files.fs_remove_dir o t site g a
  run g (fs_copy a b) = Files.fs_copy o t site g a b
  run g (fs_rename a b) = Files.fs_rename o t site g a b
  run g (fs_exists a) = Files.fs_exists o t site g a
  run g (fs_stat a) = Files.fs_stat o t site g a
  run g (fs_copy_from_host a b) = Files.fs_copy_from_host o t site g a b
  run g (fs_copy_to_host a b) = Files.fs_copy_to_host o t site g a b
  run g (fs_read_stream a) = Files.fs_read_stream o t site g a
  run g (fs_write_stream a) = Files.fs_write_stream o t site g a
  run g (ssh_open_client a) = Files.ssh_open_client o t site g a
  run g (ssh_prepare_server a) = Files.ssh_prepare_server o t site g a
  run g (attach a b c) = Files.attach o t site g a b c
  run g attach_shell = Files.attach_shell o t site g
  run g (attach_default a) = Files.attach_default o t site g a
