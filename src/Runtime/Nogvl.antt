-- ===== src/Runtime/Nogvl.antt =====
-- `nogvl`, `check_interrupts` and the two `block_on`s. CRuby is a schedule: what each interrupt
-- check gives, and whether each `rb_thread_call_without_gvl2` runs the callback or declines.
use microsandbox_rb.Common.{ℕ, zero, suc, Bool, List, [], ◌∷◌, Result, ok, err, if◌then◌else◌}
use microsandbox_rb.Error.{RubyError, base_error}

pub record Ruby : Type 0 where
  pub check : ℕ → Result RubyError (Unit {0})
  pub starts : ℕ → Bool

-- `MAX_ENTRY_ATTEMPTS` is 64: the first attempt and 63 more.
abbrev pub further_attempts : ℕ
further_attempts = 63

pub data Event : Type 0 where
  checked declined ran : Event

-- What the callback did: `catch_unwind`'s result.
pub data Run {ℓ} (R : Type ℓ) : Type ℓ where
  value : R → Run R
  panicked : Run R

-- How `nogvl` leaves: with a result, or by resuming the panic.
pub data Exit {ℓ} (R : Type ℓ) : Type ℓ where
  returned : Result RubyError R → Exit R
  unwinding : Exit R

pub record Outcome (S R : Type 0) : Type 0 where
  pub exit : Exit R
  pub state : S
  pub trace : List Event

abbrev pub finish {ℓ} : {R : Type ℓ} → Run R → Exit R
finish (value r) = returned (ok r)
finish panicked = unwinding

module _ {S R : Type 0} (ruby : Ruby) (f : S → Run R × S) where
  abbrev pub after : Event → Outcome S R → Outcome S R
  after e o = record o { trace = e ∷ o.trace }

  abbrev pub refuse : S → RubyError → Outcome S R
  refuse s e = record { exit = returned (err e); state = s; trace = [] }

  unfoldable pub run_callback : S → Outcome S R
  run_callback s = record { exit = finish (f s).0; state = (f s).1; trace = ran ∷ [] }

  -- The loop, at attempt `n` with so many attempts left after this one. The check numbered 0 is
  -- the one before the loop.
  unfoldable pub attempt : ℕ → ℕ → S → Outcome S R
  unfolding run_callback
  attempt zero n s =
      if ruby.starts n
      then run_callback s
      else after declined (
          after checked (elim (ruby.check (suc n)) [
            | err e ↦ refuse s e
            | ok _ ↦
                refuse s
                  (base_error "native call could not start: interrupt check did not settle" [])
          ]))
  attempt (suc left) n s =
      let next = attempt left (suc n) s in
      if ruby.starts n
      then run_callback s
      else after declined
          (after checked (elim (ruby.check (suc n)) [ err e ↦ refuse s e | ok _ ↦ next ]))

  unfoldable pub nogvl : S → Outcome S R
  unfolding attempt
  nogvl s =
      after checked
        (elim (ruby.check 0) [ err e ↦ refuse s e | ok _ ↦ attempt further_attempts 0 s ])
