-- ===== src/Runtime/Progress.antt =====
-- Every thread that calls `runtime()` returns after three moves of its own.
use microsandbox_rb.Common.{
  ℕ, suc, ◌+◌, ◌-◌, ◌≤◌, ◌≡◌, refl, subst, inl, inr, ◌⊎◌, Bool, true, false, Option, none, some,
  List, [], ◌∷◌, ◌==◌, if◌then◌else◌, Bool-cases, Option-cases, arith,
}
use microsandbox_rb.Runtime.Identity.{ProcessIdentity, identity_eq}
use microsandbox_rb.Runtime.Cell.{
  RuntimeCell, Shared, Local, start, loaded, racing, finished, System, step_thread, step, run,
  begin, load, exchange, lost, same_pointer,
}
use microsandbox_rb.Runtime.Phases.{IsForeign, Phase, step-Phase, run-Phase, begin-Phase}
use microsandbox_rb.Runtime.Race.{IsCurrent, Phase-straight, Phase-IsCurrent}

-- The moves that a thread has left.
abbrev moves_left : Local → ℕ
moves_left start = 3
moves_left (loaded _) = 2
moves_left (racing _ _) = 1
moves_left (finished _) = 0

-- How often thread `i` moves.
abbrev pub turns : ℕ → List ℕ → ℕ
turns i [] = 0
turns i (j ∷ is) = if i == j then suc (turns i is) else turns i is

one_more :
    (before between after : ℕ) (moved : Bool) (k : ℕ)
    → between ≤ before - (if moved then 1 else 0)
    → after ≤ between - k
    → after ≤ before - (if moved then suc k else k)
one_more before between after true k once later = omega (arith, once, later)
one_more before between after false k once later = omega (arith, once, later)

module _ (cur : ProcessIdentity) (base : ℕ) (inherited : Option RuntimeCell) where
  abbrev Advances : Shared → Local → Shared × Local → Type 0
  Advances s l r = (r.0.retries ≡ suc s.retries) ⊎ (moves_left r.1 + 1 ≤ moves_left l)

  load-Advances : (s : Shared) → Advances s start (load cur base s)
  unfolding load
  load-Advances s = elim (Option-cases s.pointer) [
    | inl e ↦ rw e (inr (omega arith))
    | inr (c, e) ↦ rw e (elim (Bool-cases (identity_eq c.owner cur)) [
      | inl m ↦ rw m (inr (omega arith))
      | inr m ↦ rw m (inr (omega arith))
    ])
  ]

  lost-Advances :
      (fresh : RuntimeCell) (o : Option RuntimeCell) (s : Shared) (p : Option RuntimeCell)
      → Advances s (racing o fresh) (lost cur base fresh s p)
  unfolding lost
  lost-Advances fresh o s none = inl refl
  lost-Advances fresh o s (some c) = elim (Bool-cases (identity_eq c.owner cur)) [
    | inl e ↦ rw e (inr (omega arith))
    | inr e ↦ rw e (inl refl)
  ]

  exchange-Advances :
      (o : Option RuntimeCell) (fresh : RuntimeCell) (s : Shared)
      → Advances s (racing o fresh) (exchange cur base o fresh s)
  unfolding exchange
  exchange-Advances o fresh s = elim (Bool-cases (same_pointer s.pointer o)) [
    | inl e ↦ rw e (inr (omega arith))
    | inr e ↦ rw e (lost-Advances fresh o s s.pointer)
  ]

  -- A thread that has returned stays so.
  abbrev Moved : Shared → Local → Shared × Local → Type 0
  Moved s l r = (r.0.retries ≡ suc s.retries) ⊎ (moves_left r.1 ≤ moves_left l - 1)

  advanced : (s : Shared) (l : Local) (r : Shared × Local) → Advances s l r → Moved s l r
  advanced s l r (inl e) = inl e
  advanced s l r (inr h) = inr (omega (arith, h))

  step_thread-Moved : (i : ℕ) (s : Shared) (l : Local) → Moved s l (step_thread cur base i s l)
  unfolding step_thread
  step_thread-Moved i s start = advanced s start (load cur base s) (load-Advances s)
  step_thread-Moved i s (loaded o) = inr (omega arith)
  step_thread-Moved i s (racing o c) =
      advanced s (racing o c) (exchange cur base o c s) (exchange-Advances o c s)
  step_thread-Moved i s (finished c) = inr (omega arith)

  Moved-straight :
      (s : Shared) (l : Local) (r : Shared × Local)
      → Moved s l r
      → r.0.retries ≡ 0
      → moves_left r.1 ≤ moves_left l - 1
  Moved-straight s l r (inl e) z = absurd (omega (arith, e, z))
  Moved-straight s l r (inr h) z = h

  step-moves :
      (i j : ℕ) (t : System cur base)
      → IsForeign cur base inherited inherited
      → Phase cur base inherited t
      → moves_left ((step cur base j t).threads i)
        ≤ moves_left (t.threads i) - (if i == j then 1 else 0)
  unfolding step
  step-moves i j t f p = elim (Bool-cases (i == j)) [
    | inl e ↦
        let same : j ≡ i = ground (arith, e) in
        rw e (
          subst
            (λ k.
              moves_left (step_thread cur base j t.shared (t.threads j)).1
              ≤ moves_left (t.threads k) - 1)
            same
            (Moved-straight t.shared (t.threads j) (step_thread cur base j t.shared (t.threads j))
              (step_thread-Moved j t.shared (t.threads j))
              (Phase-straight cur base inherited (step-Phase cur base inherited j t f p))))
    | inr e ↦ rw e (omega arith)
  ]

  run-moves :
      (is : List ℕ) (i : ℕ) (t : System cur base)
      → IsForeign cur base inherited inherited
      → Phase cur base inherited t
      → moves_left ((run cur base is t).threads i) ≤ moves_left (t.threads i) - turns i is
  unfolding run
  run-moves [] i t f p = omega arith
  run-moves (j ∷ is) i t f p =
      one_more (moves_left (t.threads i)) (moves_left ((step cur base j t).threads i))
        (moves_left ((run cur base is (step cur base j t)).threads i)) (i == j) (turns i is)
        (step-moves i j t f p)
        (run-moves is i (step cur base j t) f (step-Phase cur base inherited j t f p))

  finished_thread : (l : Local) → moves_left l ≡ 0 → (c : RuntimeCell) × (l ≡ finished c)
  finished_thread start e = absurd (omega (arith, e))
  finished_thread (loaded _) e = absurd (omega (arith, e))
  finished_thread (racing _ _) e = absurd (omega (arith, e))
  finished_thread (finished c) e = (c, refl)

  -- In any interleaving of threads of one process that enter `runtime()` with no cell or a parent's
  -- published, a thread that has moved three times has returned, with a cell that this process built,
  -- that is published and never freed.
  pub run_returns :
      (is : List ℕ) (i : ℕ)
      → IsForeign cur base inherited inherited
      → 3 ≤ turns i is
      → let t = run cur base is (begin cur base inherited) in
        (c : RuntimeCell) × (t.threads i ≡ finished c) × IsCurrent cur base inherited t c
  unfolding begin
  run_returns is i f enough =
      let p = run-Phase cur base inherited is _ f (begin-Phase cur base inherited) in
      let ended = finished_thread ((run cur base is (begin cur base inherited)).threads i) (
        omega (
          arith,
          run-moves is i (begin cur base inherited) f (begin-Phase cur base inherited),
          enough,
        )) in
      (ended.0, ended.1, Phase-IsCurrent cur base inherited _ i ended.0 p ended.1)
