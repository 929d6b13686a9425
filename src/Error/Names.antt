-- ===== src/Error/Names.antt =====
-- `camel_to_snake` and `ruby_api_name` of ext/microsandbox/src/error.rs, over code points.
use microsandbox_rb.Common.{
  ℕ, ◌+◌, Option, none, some, List, [], ◌∷◌, ◌++◌, Bool, true, false, ◌&&◌, leb, ◌==◌,
  if◌then◌else◌,
}

unfoldable pub is_ascii_uppercase : ℕ → Bool
is_ascii_uppercase c = leb b'A' c && leb c b'Z'

unfoldable pub to_ascii_lowercase : ℕ → ℕ
unfolding is_ascii_uppercase
to_ascii_lowercase c = if is_ascii_uppercase c then c + 32 else c

-- One character of the loop; the flag says that it is not the first (`i > 0`).
unfoldable pub snake_char : Bool → ℕ → List ℕ
snake_char later c =
    if is_ascii_uppercase c
    then (if later then b'_' ∷ to_ascii_lowercase c ∷ [] else to_ascii_lowercase c ∷ [])
    else c ∷ []

unfoldable pub snake_loop : Bool → List ℕ → List ℕ
unfolding snake_char
snake_loop later [] = []
snake_loop later (c ∷ cs) = snake_char later c ++ snake_loop true cs

unfoldable pub camel_to_snake : List ℕ → List ℕ
unfolding snake_loop
camel_to_snake name = snake_loop false name

-- `split_once("::")`: at the first occurrence.
unfoldable pub split_scope : List ℕ → Option (List ℕ × List ℕ)
split_scope [] = none
split_scope (c ∷ []) = none
split_scope (c ∷ d ∷ rest) =
    let later = split_scope (d ∷ rest) in
    if c == b':' && d == b':'
    then some ([], rest)
    else elim later [ none ↦ none | some (a, b) ↦ some (c ∷ a, b) ]

-- `replace('=', ": ")`
unfoldable pub replace_eq : List ℕ → List ℕ
replace_eq [] = []
replace_eq (c ∷ cs) = let rest = replace_eq cs in if c == b'=' then b':' ∷ b' ' ∷ rest else c ∷ rest

unfoldable pub ruby_api_name : List ℕ → List ℕ
unfolding camel_to_snake split_scope replace_eq
ruby_api_name path = elim (split_scope path) [
  | none ↦ path
  | some (ty, method) ↦ camel_to_snake ty ++ b'.' ∷ replace_eq method
]
