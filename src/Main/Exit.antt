-- ===== src/Main/Exit.antt =====
-- What a run ends with (convert2rhel/main.py, main_locked).
use convert2rhel.Prelude.{
  ℕ, zero, suc, Bool, true, false, ◌==◌, string_eq, ◌≡◌, ◌≢◌, refl, subst, sym, arith,
}
use convert2rhel.Phase.{post_cli, same_phase}
use convert2rhel.Actions.Outcomes.{Results}
use convert2rhel.Main.Steps.{Ending, returned, raised, Locals, State, Environment, ◌>>◌, pure, call}
use convert2rhel.Main.Triples.{
  Triple, Ends, entered, bind-Triple, call-At, read_locals-bind, enter-Triple, At,
}
use convert2rhel.Main.Body.{start, in_post, Stops, Converted, converted, try_conversion-Triple}
use convert2rhel.Main.Handlers.{write_reports-Triple}
use convert2rhel.Main.Laws.{Safe, Explained, is_safe, explains, called, handle-Triple}
use convert2rhel.Main.{
  handled, handle_main_exceptions, handle_in_phase, pick_conversion_results, execution_phase,
  conversion_report, write_reports, finally_write, with_handlers, main_locked, try_conversion,
  failure,
}

explains-is_safe :
    (analysis : Bool) (code : ℕ) (l : Locals)
    → explains analysis code l ≡ true
    → is_safe analysis l ≡ true
unfolding explains
explains-is_safe analysis zero l h = ground (arith, h)
explains-is_safe analysis (suc zero) l h = h
explains-is_safe analysis (suc (suc zero)) l h = ground (arith, h)
explains-is_safe analysis (suc (suc (suc n))) l h = ground (arith, h)

Ends-is_safe :
    (analysis : Bool) (r : Ending ℕ) (l : Locals)
    → Ends (Safe analysis) (Explained analysis) r l
    → is_safe analysis l ≡ true
Ends-is_safe analysis (returned code) l h = explains-is_safe analysis code l h
Ends-is_safe analysis (raised e) l h = h

Converted-explains :
    (analysis : Bool) (code : ℕ) (l : Locals)
    → Converted analysis code l
    → explains analysis code l ≡ true
unfolding explains is_safe called same_phase string_eq
Converted-explains analysis code l (converted pre post f g n) = ground (arith, f, g, n)

module _ {R W : Type 0} (env : Environment R W) where
  abbrev analysis : Bool
  analysis = env.activity == "analysis"

  abbrev Good : Ending ℕ → Locals → Type 0
  Good = Ends (Safe analysis) (Explained analysis)

  handled-Good :
      (r : Ending ℕ) (s : State R W)
      → Ends (Stops analysis) (Converted analysis) r s.locals
      → Good ((handled env r s).0) ((handled env r s).1.locals)
  handled-Good (returned code) s h = Converted-explains analysis code s.locals h
  handled-Good (raised e) s h = (handle-Triple env analysis e s.locals h).ends s refl

  write-Good :
      (w : Ending (Unit {0})) (t : State R W) (r : Ending ℕ) (l : Locals)
      → Ends (Safe analysis) (λ u. At l) w t.locals
      → Good r l
      → let out = elim w as (λ x. Ending ℕ × State R W) [
        | returned x ↦ (r, t)
        | raised e ↦ (raised e, t)
      ] in
        Good (out.0) (out.1.locals)
  write-Good (returned x) t r l h g = subst (Good r) (sym h) g
  write-Good (raised e) t r l h g = h

  finally_write-Good :
      (r : Ending ℕ) (s : State R W)
      → Good r s.locals
      → Good ((finally_write env r s).0) ((finally_write env r s).1.locals)
  unfolding finally_write
  finally_write-Good r s h =
      let safe = Ends-is_safe analysis r s.locals h in
      let t = (write_reports-Triple env (Safe analysis) s.locals (λ e. safe)).ends s refl in
      write-Good ((write_reports env s).0) ((write_reports env s).1) r s.locals t h

  with_handlers-Triple :
      Triple (Safe analysis) (At (entered post_cli start)) (with_handlers env) (Explained analysis)
  unfolding with_handlers
  with_handlers-Triple = record {
    ends = λ s h.
        let (r, s') = try_conversion env s in
        let ended = handled-Good r s' ((try_conversion-Triple env).ends s h) in
        let (r', s'') = handled env r s' in finally_write-Good r' s'' ended;
  }

  main_locked-Triple : Triple (Safe analysis) (At start) (main_locked env) (Explained analysis)
  unfolding main_locked is_safe called same_phase string_eq
  main_locked-Triple = bind-Triple (enter-Triple (Safe analysis) post_cli start) λ u.
      bind-Triple (call-At env.initialize_file_logging λ e. ground arith) λ u. with_handlers-Triple

  -- However a run of a new process ends, it does not both call `pop_all` for a rollback and
  -- `run_post_actions`, and an analysis does not call `run_post_actions`.
  pub main_locked-is_safe :
      (s : State R W) → s.locals ≡ start → is_safe analysis ((main_locked env s).1.locals) ≡ true
  main_locked-is_safe s h =
      Ends-is_safe analysis ((main_locked env s).0) ((main_locked env s).1.locals)
        (main_locked-Triple.ends s h)

  report_none-Triple :
      (pre : Results)
      → Triple {R = R} {W = W}
          (λ e l. Unit)
          (At (in_post pre))
          (handle_main_exceptions env)
          (λ code l. ⊥)
  unfolding handle_main_exceptions handle_in_phase conversion_report execution_phase
      pick_conversion_results same_phase string_eq
  report_none-Triple pre =
      read_locals-bind
        (λ l.
          call (env.finish_collection false)
          >> (handle_in_phase env (execution_phase l.phases) (pick_conversion_results l)
              >> pure failure))
        (bind-Triple (call-At (env.finish_collection false) λ e. tt) λ u.
          bind-Triple {M = λ u l. ⊥}
            (bind-Triple (call-At env.update_rhsm_custom_facts λ e. tt)
              λ u. record { ends = λ s h. tt })
            λ u. record { ends = λ s h. h })

  -- The handler of exceptions gives no exit code behind the point of no return, where the actions
  -- there have not returned their results: it raises itself, whatever the system does.
  pub late_exception_gives_no_code :
      (s : State R W) (pre : Results) (code : ℕ)
      → s.locals ≡ in_post pre
      → (handle_main_exceptions env s).0 ≢ returned code
  late_exception_gives_no_code s pre code h e =
      subst (λ r. Ends (λ e l. Unit {0}) (λ code l. ⊥) r ((handle_main_exceptions env s).1.locals))
        e ((report_none-Triple pre).ends s h)
