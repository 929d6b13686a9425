-- ===== src/Error/NameLaws.antt =====
-- The operation names of the errors are snake case.
use microsandbox_rb.Common.{
  ℕ, ◌≡◌, refl, Bool, true, false, List, [], ◌∷◌, All, All-append, arith, Bool-cases, inl, inr,
}
use microsandbox_rb.Error.Names.{
  is_ascii_uppercase, to_ascii_lowercase, snake_char, snake_loop, camel_to_snake,
}

abbrev pub IsLower : ℕ → Type 0
IsLower c = is_ascii_uppercase c ≡ false

lowercase-IsLower : (c : ℕ) → IsLower (to_ascii_lowercase c)
unfolding to_ascii_lowercase is_ascii_uppercase
lowercase-IsLower c = ground arith

snake_char-IsLower : (later : Bool) (c : ℕ) → All IsLower (snake_char later c)
unfolding snake_char is_ascii_uppercase
snake_char-IsLower later c = elim (Bool-cases (is_ascii_uppercase c)) [
  | inr e ↦ rw e (e, tt)
  | inl e ↦ elim (Bool-cases later) [
    | inl l ↦ rw (e, l) (refl, (lowercase-IsLower c, tt))
    | inr l ↦ rw (e, l) (lowercase-IsLower c, tt)
  ]
]

snake_loop-IsLower : (later : Bool) (cs : List ℕ) → All IsLower (snake_loop later cs)
unfolding snake_loop
snake_loop-IsLower later [] = tt
snake_loop-IsLower later (c ∷ cs) =
    All-append IsLower _ _ (snake_char-IsLower later c) (snake_loop-IsLower true cs)

-- The snake-case form of a type's name has no ASCII capital.
pub camel_to_snake-IsLower : (name : List ℕ) → All IsLower (camel_to_snake name)
unfolding camel_to_snake
camel_to_snake-IsLower name = snake_loop-IsLower false name
