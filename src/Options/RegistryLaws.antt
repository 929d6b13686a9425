-- ===== src/Options/RegistryLaws.antt =====
-- The registry options against the configuration they make (`parse_registry_config` of sandbox.rs).
use microsandbox_rb.Common.{
  ◌≡◌, refl, ap, ◌∙◌, ◌↔◌, String, Bool, true, false, Option, none, some, List, [], ◌∷◌, ok, ◌>>=◌,
  >>=-eq-ok,
}
use microsandbox_rb.Options.Outside.{Outside}
use microsandbox_rb.Options.Conv.{opt_string_vec, opt_string, opt_bool}
use microsandbox_rb.Options.Registry.{
  RegistryAuth, registry_auth, registry_config, parse_registry_config,
}

module _ (o : Outside) where
  -- No registry option is set.
  abbrev pub IsUntouched : o.Hash → Type 0
  IsUntouched opts =
      (opt_string o opts "registry_username" ≡ ok none)
      × (opt_string o opts "registry_password" ≡ ok none)
      × (opt_bool o opts "registry_insecure" ≡ ok false)
      × (opt_string_vec o opts "registry_ca_certs" ≡ ok [])

  registry_auth-none : (u p : Option String) → registry_auth u p ≡ ok none → (u ≡ none) × (p ≡ none)
  unfolding registry_auth
  registry_auth-none none none e = (refl, refl)
  registry_auth-none (some u) (some p) e = absurd (cc)
  registry_auth-none (some u) none e = absurd (cc)
  registry_auth-none none (some p) e = absurd (cc)

  registry_config-none :
      (a : Option RegistryAuth) (i : Bool) (cs : List String)
      → registry_config a i cs ≡ none
      → (a ≡ none) × (i ≡ false) × (cs ≡ [])
  unfolding registry_config
  registry_config-none none false [] e = (refl, refl, refl)
  registry_config-none none false (c ∷ cs) e = absurd (cc)
  registry_config-none none true cs e = absurd (cc)
  registry_config-none (some a) i cs e = absurd (cc)

  IsUntouched-of_none : (opts : o.Hash) → parse_registry_config o opts ≡ ok none → IsUntouched opts
  unfolding parse_registry_config
  IsUntouched-of_none opts e =
      let (u, eu, e1) = >>=-eq-ok _ _ e in
      let (p, ep, e2) = >>=-eq-ok _ _ e1 in
      let (i, ei, e3) = >>=-eq-ok _ _ e2 in
      let (c, ec, e4) = >>=-eq-ok _ _ e3 in
      let (a, ea, e5) = >>=-eq-ok _ _ e4 in
      let (na, ni, nc) = registry_config-none a i c (cc e5) in
      let (nu, np) = registry_auth-none u p (ea ∙ ap (λ x. ok x) na) in
      (
        eu ∙ ap (λ x. ok x) nu,
        ep ∙ ap (λ x. ok x) np,
        ei ∙ ap (λ x. ok x) ni,
        ec ∙ ap (λ x. ok x) nc,
      )

  IsUntouched-gives : (opts : o.Hash) → IsUntouched opts → parse_registry_config o opts ≡ ok none
  unfolding parse_registry_config ◌>>=◌ registry_auth registry_config
  IsUntouched-gives opts (eu, ep, ei, ec) = rw (eu, ep, ei, ec, parse_registry_config) refl

  -- The core's own credential chain is left alone (no registry configuration is handed over) exactly
  -- when no registry option is set: neither half of a credential, not the insecure flag, and no
  -- certificate.
  pub parse_registry_config-IsUntouched :
      (opts : o.Hash) → (parse_registry_config o opts ≡ ok none) ↔ IsUntouched opts
  parse_registry_config-IsUntouched opts = (IsUntouched-of_none opts, IsUntouched-gives opts)
