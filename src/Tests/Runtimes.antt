-- ===== src/Tests/Runtimes.antt =====
-- The theorems on processes, handles, the runtime cell and native calls, at concrete inputs.
use microsandbox_rb.Common.{ℕ, ◌≡◌, refl, false, some, List, [], ◌∷◌, ok, err, All, arith}
use microsandbox_rb.Error.{forked_handle}
use microsandbox_rb.Error.NameLaws.{IsLower, camel_to_snake-IsLower}
use microsandbox_rb.Error.Names.{camel_to_snake, is_ascii_uppercase, to_ascii_lowercase}
use microsandbox_rb.Runtime.Identity.{
  identity_eq, descend, descend-ne, fork_identity_equal, fork_identity_equal-agree,
}
use microsandbox_rb.Runtime.Guard.{
  ForkGuarded, guarded, get_in, drop, peek, drop-get_in, get_in-descend,
}
use microsandbox_rb.Runtime.Nogvl.{nogvl, finish}
use microsandbox_rb.Runtime.Interrupts.{Sound, nogvl-Sound, nogvl_starts}
use microsandbox_rb.Runtime.Cell.{RuntimeCell, System, finished, run, begin}
use microsandbox_rb.Runtime.Race.{IsCurrent, Returned, run-IsCurrent}
use microsandbox_rb.Runtime.Progress.{run_returns}
use microsandbox_rb.Tests.Fixtures.{parent, child, patient, interrupting, count}

camel_to_snake-IsLower_example : All IsLower (camel_to_snake (b'F' ∷ b's' ∷ b'X' ∷ []))
camel_to_snake-IsLower_example = camel_to_snake-IsLower (b'F' ∷ b's' ∷ b'X' ∷ [])

camel_to_snake_test : camel_to_snake (b'F' ∷ b's' ∷ b'X' ∷ []) ≡ b'f' ∷ b's' ∷ b'_' ∷ b'x' ∷ []
unfolding camel_to_snake is_ascii_uppercase to_ascii_lowercase
camel_to_snake_test = refl

-- The child has its grandparent's pid again.
descend-ne_example : identity_eq parent (descend (200 ∷ 100 ∷ []) parent) ≡ false
descend-ne_example = descend-ne 200 (100 ∷ []) parent (omega arith) (omega arith)

fork_identity_equal-agree_example :
    (fork_identity_equal 100 0 100 2).0 ≡ (fork_identity_equal 100 0 100 2).1
fork_identity_equal-agree_example =
    fork_identity_equal-agree 100 0 100 2 (omega arith) (omega arith) (omega arith) (omega arith)

abbrev handle : ForkGuarded ℕ
handle = record { owner = parent; class = "Microsandbox::Sandbox"; inner = 7 }

drop-get_in_example :
    drop handle child ≡ elim (get_in handle child) [ ok payload ↦ payload ∷ [] | err _ ↦ [] ]
drop-get_in_example = drop-get_in handle child

drop_test : drop handle child ≡ []
unfolding drop identity_eq
drop_test = refl

abbrev seven : ℕ
seven = 7

get_in-descend_example :
    (get_in (guarded parent "Microsandbox::Sandbox" seven) parent ≡ ok seven)
    × (get_in (guarded parent "Microsandbox::Sandbox" seven) (descend (100 ∷ []) parent)
        ≡ err (forked_handle "Microsandbox::Sandbox" 100 (descend (100 ∷ []) parent).pid))
    × (drop (guarded parent "Microsandbox::Sandbox" seven) (descend (100 ∷ []) parent) ≡ [])
    × (peek (guarded parent "Microsandbox::Sandbox" seven) ≡ seven)
get_in-descend_example =
    get_in-descend parent "Microsandbox::Sandbox" seven 100 [] (omega arith) (omega arith)

nogvl-Sound_example : Sound count 4 64 (nogvl interrupting count 4)
nogvl-Sound_example = nogvl-Sound interrupting count 4

nogvl_test : (nogvl interrupting count 4).state ≡ 4
unfolding nogvl
nogvl_test = refl

nogvl_starts_example :
    ((nogvl patient count 4).exit ≡ finish (count 4).0)
    × ((nogvl patient count 4).state ≡ (count 4).1)
nogvl_starts_example = nogvl_starts patient count 2 4 (omega arith) (λ i. refl) refl

-- A parent's cell is published, and two threads race.
abbrev old_cell : RuntimeCell
old_cell = record { owner = parent; address = 5 }

abbrev schedule : List ℕ
schedule = 0 ∷ 1 ∷ 0 ∷ 1 ∷ 1 ∷ 0 ∷ []

abbrev raced : System child 10
raced = run child 10 schedule (begin child 10 (some old_cell))

run-IsCurrent_example :
    (raced.shared.retries ≡ 0) × Returned child 10 (some old_cell) raced (raced.threads 0)
unfolding descend
run-IsCurrent_example = run-IsCurrent child 10 (some old_cell) schedule 0 (foreign, omega arith)
  where
    foreign : identity_eq parent child ≡ false
    foreign = descend-ne 200 [] parent (omega arith) (omega arith)

run_returns_example :
    (c : RuntimeCell) × (raced.threads 1 ≡ finished c) × IsCurrent child 10 (some old_cell) raced c
unfolding descend
run_returns_example =
    run_returns child 10 (some old_cell) schedule 1 (foreign, omega arith) (omega arith)
  where
    foreign : identity_eq parent child ≡ false
    foreign = descend-ne 200 [] parent (omega arith) (omega arith)
