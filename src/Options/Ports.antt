-- ===== src/Options/Ports.antt =====
-- `parse_port_range` of sandbox.rs, on code points, with the standard library's `u16::from_str`.
use microsandbox_rb.Common.{
  ℕ, ◌+◌, ◌*◌, ◌-◌, String, Bool, ◌&&◌, Option, none, some, List, [], ◌∷◌, Result, ok, ◌>>=◌,
  if◌then◌else◌, ok_or, ◌==◌, ltb, leb,
}
use microsandbox_rb.Common.Text.{codes}
use microsandbox_rb.Error.{RubyError, base_error, exception, numbers}
use microsandbox_rb.Options.Outside.{Outside}
use microsandbox_rb.Options.Conv.{checked}
use microsandbox_rb.Backend.Build.{trim, trim_start, trim_end}

pub record PortRange : Type 0 where
  pub start : ℕ
  pub end : ℕ

unfoldable pub is_digit : ℕ → Bool
is_digit c = leb b'0' c && leb c b'9'

-- The digits after a value: a step that leaves the 16 bits is an error.
unfoldable pub u16_digits : ℕ → List ℕ → Option ℕ
unfolding is_digit
u16_digits n [] = some n
u16_digits n (c ∷ cs) =
    let m = n * 10 + (c - b'0') in
    let rest = u16_digits m cs in if is_digit c && ltb m 65536 then rest else none

unfoldable pub parse_u16 : List ℕ → Option ℕ
unfolding u16_digits
parse_u16 [] = none
parse_u16 (c ∷ []) = u16_digits 0 (c ∷ [])
parse_u16 (c ∷ d ∷ cs) = if c == b'+' then u16_digits 0 (d ∷ cs) else u16_digits 0 (c ∷ d ∷ cs)

unfoldable pub split_once : ℕ → List ℕ → Option (List ℕ × List ℕ)
split_once sep [] = none
split_once sep (c ∷ cs) =
    let rest = split_once sep cs in
    if c == sep
    then some ([], cs)
    else elim rest [ none ↦ none | some halves ↦ some (c ∷ halves.0, halves.1) ]

module _ (o : Outside) where
  abbrev pub invalid_port : String → RubyError
  invalid_port raw = base_error "invalid port {:?} (expected N or N-M)" (raw ∷ [])

  unfoldable pub parse_bound : String → List ℕ → Result RubyError ℕ
  unfolding parse_u16 trim_start trim_end
  parse_bound raw cs = ok_or (invalid_port raw) (parse_u16 (trim o.is_whitespace cs))

  unfoldable pub parse_range : String → List ℕ × List ℕ → Result RubyError PortRange
  unfolding parse_bound checked
  parse_range raw (l, h) = do
    lo ← parse_bound raw l
    hi ← parse_bound raw h
    _ ← checked (leb lo hi) (
        exception "Error"
          (numbers "invalid port range {:?}: low {lo} exceeds high {hi}" raw (lo ∷ hi ∷ [])))
    ok (record { start = lo; end = hi })

  unfoldable pub parse_port_range : String → Result RubyError PortRange
  unfolding split_once parse_range parse_bound
  parse_port_range raw = elim (split_once b'-' (codes raw)) [
    | some halves ↦ parse_range raw halves
    | none ↦ do p ← parse_bound raw (codes raw); ok (record { start = p; end = p })
  ]
