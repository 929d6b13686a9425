-- ===== src/Runtime/Cell.antt =====
-- `runtime()`: the process-wide cell, reached by any number of threads of one process at once. A
-- cell is known by its address; the runtime in it is not modelled further. A step of a thread is
-- one atomic access to `RUNTIME`, or the building of its cell; thread `i`'s allocation is the
-- address `base + i`. Addresses below `base` are those of cells from before the call.
use microsandbox_rb.Common.{
  ℕ, suc, ◌+◌, Bool, true, false, Option, none, some, List, [], ◌∷◌, ◌==◌, if◌then◌else◌,
}
use microsandbox_rb.Runtime.Identity.{ProcessIdentity, identity_eq}

pub record RuntimeCell : Type 0 where
  pub owner : ProcessIdentity
  pub address : ℕ

-- `RUNTIME`; the addresses given back by `Box::from_raw`; and how often the loop went round again.
pub record Shared : Type 0 where
  pub pointer : Option RuntimeCell
  pub freed : List ℕ
  pub retries : ℕ

-- Where a thread stands in `runtime()`.
pub data Local : Type 0 where
  start : Local
  loaded : Option RuntimeCell → Local
  racing : Option RuntimeCell → RuntimeCell → Local
  finished : RuntimeCell → Local

-- The comparison of `compare_exchange`: of addresses.
unfoldable pub same_pointer : Option RuntimeCell → Option RuntimeCell → Bool
same_pointer none none = true
same_pointer (some a) (some b) = a.address == b.address
same_pointer _ _ = false

module _ (cur : ProcessIdentity) (base : ℕ) where
  abbrev pub cell : ℕ → RuntimeCell
  cell i = record { owner = cur; address = base + i }

  abbrev pub is_ours : Option RuntimeCell → Bool
  is_ours none = false
  is_ours (some c) = identity_eq c.owner cur

  -- `load`, and the test of the cell that it shows.
  unfoldable pub load : Shared → Shared × Local
  load s = elim s.pointer [
    | none ↦ (s, loaded none)
    | some c ↦ (s, (if identity_eq c.owner cur then finished c else loaded (some c)))
  ]

  -- The arm `Err(winner)`.
  unfoldable pub lost : RuntimeCell → Shared → Option RuntimeCell → Shared × Local
  lost fresh s none = (record s { retries = suc s.retries }, racing none fresh)
  lost fresh s (some c) =
      if identity_eq c.owner cur
      then (record s { freed = fresh.address ∷ s.freed }, finished c)
      else (record s { retries = suc s.retries }, racing (some c) fresh)

  unfoldable pub exchange : Option RuntimeCell → RuntimeCell → Shared → Shared × Local
  unfolding same_pointer lost
  exchange observed fresh s =
      if same_pointer s.pointer observed
      then (record s { pointer = some fresh }, finished fresh)
      else lost fresh s s.pointer

  unfoldable pub step_thread : ℕ → Shared → Local → Shared × Local
  unfolding load exchange
  step_thread i s start = load s
  step_thread i s (loaded observed) = (s, racing observed (cell i))
  step_thread i s (racing observed fresh) = exchange observed fresh s
  step_thread i s (finished c) = (s, finished c)

  pub record System : Type 0 where
    pub shared : Shared
    pub threads : ℕ → Local

  unfoldable pub step : ℕ → System → System
  unfolding step_thread
  step i t =
      let (s, l) = step_thread i t.shared (t.threads i) in
      record { shared = s; threads = λ j. if j == i then l else t.threads j }

  -- A schedule names the thread that moves next.
  unfoldable pub run : List ℕ → System → System
  unfolding step
  run [] t = t
  run (i ∷ is) t = run is (step i t)

  unfoldable pub begin : Option RuntimeCell → System
  begin inherited = record {
    shared = record { pointer = inherited; freed = []; retries = 0 };
    threads = λ _. start;
  }
