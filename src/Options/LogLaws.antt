-- ===== src/Options/LogLaws.antt =====
-- The log sources of a list of texts (`parse_log_sources` of sandbox.rs).
use microsandbox_rb.Common.{
  ◌≡◌, refl, inl, inr, String, List, [], ◌∷◌, ◌++◌, ok, ◌>>=◌, Result-cases,
}
use microsandbox_rb.Options.Lifecycle.{LogSource, every_source, push_source, push_sources}

-- `"all"` forgets the sources before it: when those parse, what follows it is pushed after the four
-- sources, whichever they were.
pub push_sources-all :
    (start : List LogSource) (before after : List String) (found : List LogSource)
    → push_sources start before ≡ ok found
    → push_sources start (before ++ ("all" ∷ after)) ≡ push_sources every_source after
unfolding push_sources push_source ◌>>=◌
push_sources-all start [] after found h = refl
push_sources-all start (t ∷ ts) after found h = elim (Result-cases (push_source start t)) [
  | inl (next, e) ↦ rw e (push_sources-all next ts after found (rw e at h))
  | inr (x, e) ↦ absurd (cc (rw e at h))
]
