-- ===== src/Runtime/Identity.antt =====
-- `ProcessIdentity`: the pid and the fork generation, both 32-bit words. `fork` is the atfork child
-- handler with the new pid that the system picks.
use microsandbox_rb.Common.{
  ℕ, ◌+◌, ◌*◌, ◌%◌, ◌<◌, length, ◌≡◌, ◌≢◌, Bool, true, false, ◌&&◌, ◌==◌, List, [], ◌∷◌, arith,
}

abbrev pub u32_mod : ℕ
u32_mod = 4294967296

pub record ProcessIdentity : Type 0 where
  pub pid : ℕ
  pub generation : ℕ

abbrev pub from_parts : ℕ → ℕ → ProcessIdentity
from_parts pid generation = record { pid = pid; generation = generation }

-- The derived `PartialEq`.
unfoldable pub identity_eq : ProcessIdentity → ProcessIdentity → Bool
identity_eq a b = a.pid == b.pid && a.generation == b.generation

-- `pid << 32 | generation` as a 64-bit word: the low half of the shifted pid is 0, so `|` adds.
unfoldable pub to_bits : ProcessIdentity → ℕ
to_bits a = a.pid * u32_mod % (u32_mod * u32_mod) + a.generation

-- `on_fork_child` adds 1 to the inherited counter; the pid is the child's own.
unfoldable pub fork : ℕ → ProcessIdentity → ProcessIdentity
fork pid parent = record { pid = pid; generation = (parent.generation + 1) % u32_mod }

-- A line of descent: each process forks the next, which gets the listed pid.
unfoldable pub descend : List ℕ → ProcessIdentity → ProcessIdentity
unfolding fork
descend [] p = p
descend (pid ∷ pids) p = descend pids (fork pid p)

-- `fork_identity_equal` of lib.rs: equality of the parts, and of the packed words.
unfoldable pub fork_identity_equal : ℕ → ℕ → ℕ → ℕ → Bool × Bool
unfolding identity_eq to_bits
fork_identity_equal pid_a gen_a pid_b gen_b =
    let a : ProcessIdentity = from_parts pid_a gen_a in
    let b : ProcessIdentity = from_parts pid_b gen_b in (identity_eq a b, to_bits a == to_bits b)

pub record IsValid (a : ProcessIdentity) : Type 0 where
  pub pid_fits : a.pid < u32_mod
  pub generation_fits : a.generation < u32_mod

pub to_bits-injective :
    (a b : ProcessIdentity) → IsValid a → IsValid b → to_bits a ≡ to_bits b → a ≡ b
unfolding to_bits
to_bits-injective a b va vb h = ground arith

pub to_bits-pos : (a : ProcessIdentity) → IsValid a → a.pid ≢ 0 → to_bits a ≢ 0
unfolding to_bits
to_bits-pos a v h e = omega arith

pub identity_eq_iff-to : (a b : ProcessIdentity) → identity_eq a b ≡ true → a ≡ b
unfolding identity_eq
identity_eq_iff-to a b h = ground arith

pub identity_eq_refl : (a : ProcessIdentity) → identity_eq a a ≡ true
unfolding identity_eq
identity_eq_refl a = ground arith

-- The two comparisons by which ownership is decided always agree: on 32-bit parts, the packed words
-- are equal exactly when the pids and the generations are.
pub fork_identity_equal-agree :
    (pid_a gen_a pid_b gen_b : ℕ)
    → pid_a < u32_mod
    → gen_a < u32_mod
    → pid_b < u32_mod
    → gen_b < u32_mod
    → (fork_identity_equal pid_a gen_a pid_b gen_b).0
      ≡ (fork_identity_equal pid_a gen_a pid_b gen_b).1
unfolding fork_identity_equal
fork_identity_equal-agree pid_a gen_a pid_b gen_b ha ga hb gb = ground arith

descend-generation :
    (pids : List ℕ) (p : ProcessIdentity)
    → p.generation < u32_mod
    → (descend pids p).generation ≡ (p.generation + length pids) % u32_mod
unfolding descend
descend-generation [] p h = omega arith
descend-generation (pid ∷ pids) p h = omega (arith, descend-generation pids (fork pid p))

-- However the system hands out pids, no descendant by fewer than 2^32 forks passes for its
-- ancestor: its identity is another one, also where the pid is the same.
pub descend-ne :
    (pid : ℕ) (pids : List ℕ) (p : ProcessIdentity)
    → p.generation < u32_mod
    → length pids + 1 < u32_mod
    → identity_eq p (descend (pid ∷ pids) p) ≡ false
unfolding identity_eq
descend-ne pid pids p h k = ground (arith, descend-generation (pid ∷ pids) p)
