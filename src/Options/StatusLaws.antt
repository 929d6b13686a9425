-- ===== src/Options/StatusLaws.antt =====
-- The text form of a sandbox status (sandbox.rs).
use microsandbox_rb.Common.{◌≡◌, refl, sym, ap, ◌∙◌, ◌↔◌, inl, inr, String, true, ok, Bool-cases}
use microsandbox_rb.Common.Text.{◌=?◌, eq_iff}
use microsandbox_rb.Options.Enums.{
  SandboxStatus, created, starting, running, draining, paused, stopped, crashed, sandbox_status_str,
  sandbox_status_from_str,
}

known :
    (t u : String) (c s : SandboxStatus)
    → (t =? u) ≡ true
    → c ≡ s
    → sandbox_status_str c ≡ u
    → t ≡ sandbox_status_str s
known t u c s h same text = (eq_iff t u).0 h ∙ (sym text ∙ ap sandbox_status_str same)

-- A text reads back to a status exactly when it is that status's text.
pub sandbox_status_from_str_iff :
    (t : String) (s : SandboxStatus)
    → (sandbox_status_from_str t ≡ ok s) ↔ (t ≡ sandbox_status_str s)
unfolding sandbox_status_from_str sandbox_status_str
sandbox_status_from_str_iff t s = (to, from s)
  where
    from : (s : SandboxStatus) → t ≡ sandbox_status_str s → sandbox_status_from_str t ≡ ok s
    from created e = rw e refl
    from starting e = rw e refl
    from running e = rw e refl
    from draining e = rw e refl
    from paused e = rw e refl
    from stopped e = rw e refl
    from crashed e = rw e refl

    to : sandbox_status_from_str t ≡ ok s → t ≡ sandbox_status_str s
    to e = elim (Bool-cases (t =? "created")) [
      | inl h ↦ known t "created" created s h (cc (rw h at e)) refl
      | inr h ↦
          let e = rw h at e in
          (elim (Bool-cases (t =? "starting")) [
            | inl h ↦ known t "starting" starting s h (cc (rw h at e)) refl
            | inr h ↦
                let e = rw h at e in
                (elim (Bool-cases (t =? "running")) [
                  | inl h ↦ known t "running" running s h (cc (rw h at e)) refl
                  | inr h ↦
                      let e = rw h at e in
                      (elim (Bool-cases (t =? "draining")) [
                        | inl h ↦ known t "draining" draining s h (cc (rw h at e)) refl
                        | inr h ↦
                            let e = rw h at e in
                            (elim (Bool-cases (t =? "paused")) [
                              | inl h ↦ known t "paused" paused s h (cc (rw h at e)) refl
                              | inr h ↦
                                  let e = rw h at e in
                                  (elim (Bool-cases (t =? "stopped")) [
                                    | inl h ↦ known t "stopped" stopped s h (cc (rw h at e)) refl
                                    | inr h ↦
                                        let e = rw h at e in
                                        (elim (Bool-cases (t =? "crashed")) [
                                          | inl h ↦
                                              known t "crashed" crashed s h (cc (rw h at e)) refl
                                          | inr h ↦ let e = rw h at e in (absurd (cc))
                                        ])
                                  ])
                            ])
                      ])
                ])
          ])
    ]
