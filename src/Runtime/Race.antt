-- ===== src/Runtime/Race.antt =====
-- Threads of one process that call `runtime()` at once: what every schedule keeps.
use microsandbox_rb.Common.{ℕ, ◌≡◌, refl, sym, subst, ◌≢◌, Option, some, List, All}
use microsandbox_rb.Runtime.Identity.{ProcessIdentity}
use microsandbox_rb.Runtime.Cell.{
  RuntimeCell, Local, start, loaded, racing, finished, System, run, begin,
}
use microsandbox_rb.Runtime.Phases.{
  IsForeign, Waits, Follows, Phase, open_phase, published, run-Phase, begin-Phase,
}

module _ (cur : ProcessIdentity) (base : ℕ) (inherited : Option RuntimeCell) where
  -- A runtime that a call returned: this process built it, the pointer shows it, it was never freed.
  pub record IsCurrent (t : System cur base) (c : RuntimeCell) : Type 0 where
    pub ours : c.owner ≡ cur
    pub shown : t.shared.pointer ≡ some c
    pub alive : All (λ a. a ≢ c.address) t.shared.freed

  pub Phase-IsCurrent :
      (t : System cur base) (i : ℕ) (c : RuntimeCell)
      → Phase cur base inherited t
      → t.threads i ≡ finished c
      → IsCurrent t c
  Phase-IsCurrent t i c (open_phase o) e = absurd (subst (Waits cur base inherited i) e (o.waits i))
  Phase-IsCurrent t i c (published j p) e =
      subst (IsCurrent t) (sym (subst (Follows cur base inherited j i) e (p.follows i)))
        (record { ours = refl; shown = p.set; alive = p.kept })

  -- What a thread that has returned may rely on; one that has not promises nothing.
  abbrev pub Returned : System cur base → Local → Type 0
  Returned t start = Unit
  Returned t (loaded _) = Unit
  Returned t (racing _ _) = Unit
  Returned t (finished c) = IsCurrent t c

  Phase-Returned :
      (t : System cur base) (i : ℕ) (l : Local)
      → Phase cur base inherited t
      → t.threads i ≡ l
      → Returned t l
  Phase-Returned t i start p e = tt
  Phase-Returned t i (loaded _) p e = tt
  Phase-Returned t i (racing _ _) p e = tt
  Phase-Returned t i (finished c) p e = Phase-IsCurrent t i c p e

  pub Phase-straight : {t : System cur base} → Phase cur base inherited t → t.shared.retries ≡ 0
  Phase-straight (open_phase o) = o.straight
  Phase-straight (published j p) = p.straight

  run-straight :
      (is : List ℕ)
      → IsForeign cur base inherited inherited
      → (run cur base is (begin cur base inherited)).shared.retries ≡ 0
  run-straight is f =
      Phase-straight (run-Phase cur base inherited is _ f (begin-Phase cur base inherited))

  -- Threads of one process may enter `runtime()` together, in any interleaving, with no cell or a
  -- parent's published. Whatever a call returns was built by this process, is the published cell,
  -- and is never freed; so all calls return the same one. No thread goes round the loop again.
  pub run-IsCurrent :
      (is : List ℕ) (i : ℕ)
      → IsForeign cur base inherited inherited
      → let t = run cur base is (begin cur base inherited) in
        (t.shared.retries ≡ 0) × Returned t (t.threads i)
  run-IsCurrent is i f = (
    run-straight is f,
    Phase-Returned _ i _ (run-Phase cur base inherited is _ f (begin-Phase cur base inherited))
        refl,
  )
