-- ===== src/Options/SecretLaws.antt =====
-- What a secret that parses has (`parse_secret` of sandbox.rs).
use microsandbox_rb.Common.{◌≡◌, refl, ◌⊎◌, inl, inr, Bool, true, false, not, ◌&&◌}
use microsandbox_rb.Common.Successes.{Ok, skip, bind-Ok}
use microsandbox_rb.Options.Outside.{Outside}
use microsandbox_rb.Options.Conv.{checked}
use microsandbox_rb.Options.HostPath.{is_empty}
use microsandbox_rb.Options.Secrets.{SecretSpec, parse_secret}
use microsandbox_rb.Options.PortBounds.{checked-Ok}

-- Some host is allowed.
abbrev pub HasHost : (o : Outside) → SecretSpec o → Type 0
HasHost o s = (is_empty s.hosts ≡ false) ⊎ (is_empty s.host_patterns ≡ false)

some_host : (a b : Bool) → not (a && b) ≡ true → (a ≡ false) ⊎ (b ≡ false)
some_host false b h = inl refl
some_host true false h = inr refl
some_host true true h = absurd (cc)

-- A secret that parses names at least one host or host pattern that may receive it.
pub parse_secret-HasHost : (o : Outside) (h : o.Hash) → Ok (HasHost o) (parse_secret o h)
unfolding parse_secret
parse_secret-HasHost o h = skip _ _ _ (λ env. skip _ _ _ (λ value. skip _ _ _ (λ hosts.
    skip _ _ _ (λ patterns.
      bind-Ok _ (λ _. not (is_empty hosts && is_empty patterns) ≡ true)
        (checked (not (is_empty hosts && is_empty patterns)) _) _ (checked-Ok _ _)
        (λ _ ne. skip _ _ _ (λ violation. skip _ _ _ (λ action. skip _ _ _ (λ a. skip _ _ _ (λ b.
          skip _ _ _ (λ c. skip _ _ _ (λ d.
            skip _ _ _
              (λ e. skip _ _ _ (λ f. some_host (is_empty hosts) (is_empty patterns) ne)))))))))))))
