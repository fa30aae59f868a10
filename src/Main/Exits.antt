-- ===== src/Main/Exits.antt =====
-- What the exit code of `run` says.
use billy.Base.{ℕ, List, [], ◌∷◌, ◌≡◌, refl, ◌↔◌, ◌⊎◌, inl, inr, Bool, true, false, Option, none}
use billy.Base.Int.{ℤ}
use billy.Errors.{ok, Result-cases}
use billy.Main.{
  Host, StartError, Call, misused, shown, action, exit_ok, exit_usage, report, run_command, run,
  serve_funnel,
}

abbrev pub is_misuse : Call → Bool
is_misuse (misused text) = true
is_misuse shown = false
is_misuse (action []) = false
is_misuse (action (arg ∷ args)) = true

module _ (Pool Client : Type 0) {Logger : Type 0} (host : Host Logger)
    (exit_coder : StartError → Option (ℤ × List ℕ)) where
  -- The library printed the help or the version, or the service ended without an error.
  abbrev pub EndsWell : Call → Type 0
  EndsWell call =
      (call ≡ shown) ⊎ ((call ≡ action []) × ((serve_funnel Pool Client host).1 ≡ ok tt))

  -- What one call must give.
  pub record IsReported (call : Call) : Type 0 where
    pub usage_iff :
        ((run Pool Client host exit_coder call).code ≡ exit_usage) ↔ (is_misuse call ≡ true)
    pub ok_iff : ((run Pool Client host exit_coder call).code ≡ exit_ok) ↔ EndsWell call
    pub misuse_acts : is_misuse call ≡ true → (run Pool Client host exit_coder call).acts ≡ []

  service-IsReported : ((e : StartError) → exit_coder e ≡ none) → IsReported (action [])
  unfolding run run_command report
  service-IsReported plain = elim (Result-cases (serve_funnel Pool Client host).1) [
    | inl (u, s) ↦ record {
      usage_iff = (λ q. cc (rw (run, run_command, report, s) at q), λ q. cc);
      ok_iff = (λ q. inr (refl, s), λ q. rw (run, run_command, report, s));
      misuse_acts = λ q. cc;
    }
    | inr (e, s) ↦
        let none_found = plain e in
        record {
          usage_iff = (λ q. cc (rw (run, run_command, report, s, none_found) at q), λ q. cc);
          ok_iff = (
            λ q. cc (rw (run, run_command, report, s, none_found) at q),
            λ q. elim q [ inl e' ↦ cc | inr (e', s') ↦ cc ],
          );
          misuse_acts = λ q. cc;
        }
  ]

  -- If no error of the service brings an exit code of its own, then the code is 2 exactly when the
  -- command line is misused, by a bad flag or by a positional argument, it is 0 exactly when the help
  -- or the version was shown or the service ended without an error, and a misuse starts nothing.
  pub run-IsReported : (call : Call) → ((e : StartError) → exit_coder e ≡ none) → IsReported call
  unfolding run run_command report
  run-IsReported (action []) plain = service-IsReported plain
  run-IsReported (misused text) plain = record {
    usage_iff = (λ q. refl, λ q. refl);
    ok_iff = (λ q. cc, λ q. elim q [ inl e ↦ cc | inr (e, s) ↦ cc ]);
    misuse_acts = λ q. refl;
  }
  run-IsReported shown plain = record {
    usage_iff = (λ q. cc, λ q. cc);
    ok_iff = (λ q. inl refl, λ q. refl);
    misuse_acts = λ q. cc;
  }
  run-IsReported (action (arg ∷ args)) plain = record {
    usage_iff = (λ q. refl, λ q. refl);
    ok_iff = (λ q. cc, λ q. elim q [ inl e ↦ cc | inr (e, s) ↦ cc ]);
    misuse_acts = λ q. refl;
  }
