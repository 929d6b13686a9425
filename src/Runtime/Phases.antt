-- ===== src/Runtime/Phases.antt =====
-- Threads of one process that call `runtime()` at once: before a cell is published, and after.
use microsandbox_rb.Common.{
  ℕ, ◌+◌, ◌<◌, ◌≡◌, refl, sym, subst, ◌≢◌, inl, inr, true, false, Option, none, some, List, [], ◌∷◌,
  All, ◌==◌, ==_iff, if◌then◌else◌, Bool-cases, arith,
}
use microsandbox_rb.Runtime.Identity.{ProcessIdentity, identity_eq, identity_eq_refl}
use microsandbox_rb.Runtime.Cell.{
  RuntimeCell, Shared, Local, start, loaded, racing, finished, System, cell, step_thread, step, run,
  begin, load, exchange, lost, same_pointer,
}

module _ (cur : ProcessIdentity) (base : ℕ) (inherited : Option RuntimeCell) where
  -- What the pointer shows when the calls begin is no cell of this process.
  abbrev pub IsForeign : Option RuntimeCell → Type 0
  IsForeign none = Unit {0}
  IsForeign (some c) = (identity_eq c.owner cur ≡ false) × (c.address < base)

  -- A thread before anything is published, and after the cell of thread `j` is.
  abbrev pub Waits : ℕ → Local → Type 0
  Waits i start = Unit {0}
  Waits i (loaded o) = o ≡ inherited
  Waits i (racing o c) = (o ≡ inherited) × (c ≡ cell cur base i)
  Waits i (finished c) = ⊥

  abbrev pub Follows : ℕ → ℕ → Local → Type 0
  Follows j i start = i ≢ j
  Follows j i (loaded o) = (o ≡ inherited) × (i ≢ j)
  Follows j i (racing o c) = (o ≡ inherited) × (c ≡ cell cur base i) × (i ≢ j)
  Follows j i (finished c) = c ≡ cell cur base j

  pub record Open (t : System cur base) : Type 0 where
    pub unset : t.shared.pointer ≡ inherited
    pub kept : t.shared.freed ≡ []
    pub straight : t.shared.retries ≡ 0
    pub waits : (i : ℕ) → Waits i (t.threads i)

  pub record Published (j : ℕ) (t : System cur base) : Type 0 where
    pub set : t.shared.pointer ≡ some (cell cur base j)
    pub kept : All (λ a. a ≢ base + j) t.shared.freed
    pub straight : t.shared.retries ≡ 0
    pub follows : (i : ℕ) → Follows j i (t.threads i)

  pub data Phase (t : System cur base) : Type 0 where
    open_phase : Open t → Phase t
    published : (j : ℕ) → Published j t → Phase t

  same_pointer_refl : (o : Option RuntimeCell) → same_pointer o o ≡ true
  unfolding same_pointer
  same_pointer_refl none = refl
  same_pointer_refl (some c) = ground arith

  same_pointer_new :
      (j : ℕ) (o : Option RuntimeCell)
      → IsForeign o
      → same_pointer (some (cell cur base j)) o ≡ false
  unfolding same_pointer
  same_pointer_new j none f = refl
  same_pointer_new j (some c) f = ground arith

  load_foreign :
      (s : Shared) (o : Option RuntimeCell)
      → IsForeign o
      → s.pointer ≡ o
      → load cur base s ≡ (s, loaded o)
  unfolding load
  load_foreign s none f e = rw e
  load_foreign s (some c) f e = rw (e, f.0)

  load_set :
      (s : Shared) (j : ℕ)
      → s.pointer ≡ some (cell cur base j)
      → load cur base s ≡ (s, finished (cell cur base j))
  unfolding load
  load_set s j e = rw (e, identity_eq_refl)

  exchange_open :
      (s : Shared) (fresh : RuntimeCell)
      → s.pointer ≡ inherited
      → exchange cur base inherited fresh s ≡ (record s { pointer = some fresh }, finished fresh)
  unfolding exchange
  exchange_open s fresh e = rw (e, same_pointer_refl)

  exchange_set :
      (s : Shared) (j : ℕ) (fresh : RuntimeCell)
      → IsForeign inherited
      → s.pointer ≡ some (cell cur base j)
      → exchange cur base inherited fresh s
        ≡ (record s { freed = fresh.address ∷ s.freed }, finished (cell cur base j))
  unfolding exchange lost
  exchange_set s j fresh f e = rw (e, same_pointer_new j inherited f, identity_eq_refl)

  abbrev moved : ℕ → Shared → Local → System cur base → System cur base
  moved i s l t = record { shared = s; threads = λ j. if j == i then l else t.threads j }

  step_to :
      (i : ℕ) (t : System cur base) (l : Local) {s : Shared} {l' : Local}
      → t.threads i ≡ l
      → step_thread cur base i t.shared l ≡ (s, l')
      → step cur base i t ≡ moved i s l' t
  unfolding step
  step_to i t l e h = rw (e, h)

  each-moved :
      (P : ℕ → Local → Type 0) (i : ℕ) (l : Local) (t : System cur base)
      → P i l
      → ((j : ℕ) → P j (t.threads j))
      → (j : ℕ) → P j (if j == i then l else t.threads j)
  each-moved P i l t new old j = elim (Bool-cases (j == i)) [
    | inl e ↦ rw e (subst (λ k. P k l) (sym ((==_iff j i).0 e)) new)
    | inr e ↦ rw e (old j)
  ]

  Follows-of_Waits : (j i : ℕ) (l : Local) → i ≢ j → Waits i l → Follows j i l
  Follows-of_Waits j i start h w = h
  Follows-of_Waits j i (loaded o) h w = (w, h)
  Follows-of_Waits j i (racing o c) h w = (w.0, w.1, h)
  Follows-of_Waits j i (finished c) h w = absurd w

  step-Open :
      (i : ℕ) (t : System cur base) (l : Local)
      → IsForeign inherited
      → t.threads i ≡ l
      → Open t
      → Phase (step cur base i t)
  unfolding step_thread
  step-Open i t start f e o =
      subst Phase (sym (step_to i t start e (load_foreign t.shared inherited f o.unset))) (
        open_phase (record {
          unset = o.unset;
          kept = o.kept;
          straight = o.straight;
          waits = each-moved Waits i (loaded inherited) t refl o.waits;
        }))
  step-Open i t (loaded x) f e o = subst Phase (sym (step_to i t (loaded x) e refl)) (
      open_phase (record {
        unset = o.unset;
        kept = o.kept;
        straight = o.straight;
        waits =
            each-moved Waits i (racing x (cell cur base i)) t (subst (Waits i) e (o.waits i), refl)
              o.waits;
      }))
  step-Open i t (racing x c) f e o =
      subst Phase
        (sym (
          step_to i t (racing x c) {s = record t.shared { pointer = some (cell cur base i) }}
            {l' = finished (cell cur base i)} e
            (rw (w.0, w.1) (exchange_open t.shared (cell cur base i) o.unset))))
        (published i (record {
          set = refl;
          kept = rw o.kept tt;
          straight = o.straight;
          follows = λ j. elim (Bool-cases (j == i)) [
            | inl same ↦ rw same refl
            | inr differs ↦
                rw differs (Follows-of_Waits i j (t.threads j) (ground arith) (o.waits j))
          ];
        }))
    where
      w : Waits i (racing x c)
      w = subst (Waits i) e (o.waits i)
  step-Open i t (finished c) f e o = absurd (subst (Waits i) e (o.waits i))

  step-Published :
      (i j : ℕ) (t : System cur base) (l : Local)
      → IsForeign inherited
      → t.threads i ≡ l
      → Published j t
      → Published j (step cur base i t)
  unfolding step_thread
  step-Published i j t start f e p =
      subst (Published j) (sym (step_to i t start e (load_set t.shared j p.set))) (record {
        set = p.set;
        kept = p.kept;
        straight = p.straight;
        follows = each-moved (Follows j) i (finished (cell cur base j)) t refl p.follows;
      })
  step-Published i j t (loaded x) f e p =
      subst (Published j) (sym (step_to i t (loaded x) e refl)) (record {
        set = p.set;
        kept = p.kept;
        straight = p.straight;
        follows =
            each-moved (Follows j) i (racing x (cell cur base i)) t (w.0, refl, w.1) p.follows;
      })
    where
      w : Follows j i (loaded x)
      w = subst (Follows j i) e (p.follows i)
  step-Published i j t (racing x c) f e p =
      subst (Published j)
        (sym (
          step_to i t (racing x c) {s = record t.shared { freed = (base + i) ∷ t.shared.freed }}
            {l' = finished (cell cur base j)} e
            (rw (w.0, w.1) (exchange_set t.shared j (cell cur base i) f p.set))))
        (record {
          set = p.set;
          kept = ((λ h. w.2 (omega arith)), p.kept);
          straight = p.straight;
          follows = each-moved (Follows j) i (finished (cell cur base j)) t refl p.follows;
        })
    where
      w : Follows j i (racing x c)
      w = subst (Follows j i) e (p.follows i)
  step-Published i j t (finished c) f e p =
      subst (Published j) (sym (step_to i t (finished c) e refl)) (record {
        set = p.set;
        kept = p.kept;
        straight = p.straight;
        follows =
            each-moved (Follows j) i (finished c) t (subst (Follows j i) e (p.follows i)) p.follows;
      })

  pub step-Phase :
      (i : ℕ) (t : System cur base) → IsForeign inherited → Phase t → Phase (step cur base i t)
  step-Phase i t f (open_phase o) = step-Open i t (t.threads i) f refl o
  step-Phase i t f (published j p) = published j (step-Published i j t (t.threads i) f refl p)

  pub run-Phase :
      (is : List ℕ) (t : System cur base)
      → IsForeign inherited
      → Phase t
      → Phase (run cur base is t)
  unfolding run
  run-Phase [] t f p = p
  run-Phase (i ∷ is) t f p = run-Phase is (step cur base i t) f (step-Phase i t f p)

  pub begin-Phase : Phase (begin cur base inherited)
  unfolding begin
  begin-Phase = open_phase (record { unset = refl; kept = refl; straight = refl; waits = λ i. tt })
