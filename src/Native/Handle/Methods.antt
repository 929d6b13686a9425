-- ===== src/Native/Handle/Methods.antt =====
-- The methods that `define` of sandbox.rs registers for a sandbox handle and that ask the core.
use microsandbox_rb.Common.{String}
use microsandbox_rb.Runtime.Guard.{ForkGuarded}
use microsandbox_rb.Backend.Build.{Core}
use microsandbox_rb.Options.Outside.{Outside}
use microsandbox_rb.Native.Call.{Site, Call}
use microsandbox_rb.Native.Objects.{Objects}
use microsandbox_rb.Native.Handle.Requests.{HandleReply}
use microsandbox_rb.Native.Handle.Live
use microsandbox_rb.Native.Handle.Live.{Answer}

pub data HandleMethod (o : Outside) : Type 0 where
  stop : HandleMethod o
  stop_with_timeout : o.F64 → HandleMethod o
  kill : HandleMethod o
  kill_with_timeout : o.F64 → HandleMethod o
  request_stop : HandleMethod o
  request_kill : HandleMethod o
  request_drain : HandleMethod o
  connect_or_start : o.Hash → HandleMethod o
  wait_for_status : String → HandleMethod o
  restart : o.Hash → HandleMethod o
  destroy : o.Hash → HandleMethod o
  wait_until_stopped : HandleMethod o
  snapshot : String → HandleMethod o
  ping : HandleMethod o
  touch : HandleMethod o
  modify : o.Hash → HandleMethod o

module _ {core : Core} (o : Outside) (t : Objects) (site : Site core (HandleReply o t)) where
  -- A call of a method on the handle that `g` guards.
  unfoldable pub run : ForkGuarded t.SandboxHandle → HandleMethod o → Call site (Answer o t site)
  unfolding Live.stop Live.stop_with_timeout Live.kill Live.kill_with_timeout Live.request_stop
      Live.request_kill Live.request_drain Live.connect_or_start Live.wait_for_status Live.restart
      Live.destroy Live.wait_until_stopped Live.snapshot Live.ping Live.touch Live.modify
  run g stop = Live.stop o t site g
  run g (stop_with_timeout a) = Live.stop_with_timeout o t site g a
  run g kill = Live.kill o t site g
  run g (kill_with_timeout a) = Live.kill_with_timeout o t site g a
  run g request_stop = Live.request_stop o t site g
  run g request_kill = Live.request_kill o t site g
  run g request_drain = Live.request_drain o t site g
  run g (connect_or_start a) = Live.connect_or_start o t site g a
  run g (wait_for_status a) = Live.wait_for_status o t site g a
  run g (restart a) = Live.restart o t site g a
  run g (destroy a) = Live.destroy o t site g a
  run g wait_until_stopped = Live.wait_until_stopped o t site g
  run g (snapshot a) = Live.snapshot o t site g a
  run g ping = Live.ping o t site g
  run g touch = Live.touch o t site g
  run g (modify a) = Live.modify o t site g a
