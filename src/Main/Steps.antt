-- ===== src/Main/Steps.antt =====
-- The code of main.py as state passing: its locals, the phases, the backup controller and the
-- outside world, and how a piece of it ends.
use convert2rhel.Prelude.{String, Bool, Option, some, List, ◌∷◌, Exn, Result, ok, raise}
use convert2rhel.Phase.{Phase, phase, Phases, set_current}
use convert2rhel.Backup.{Restorable, Control}
use convert2rhel.Actions.Outcomes.{Results}

-- What is raised in main.py: `_AnalyzeExit` and `_InhibitorsFound`, which are private to it, or
-- any other exception.
pub data Raised : Type 0 where
  analysis_done inhibited : Raised
  exception : Exn → Raised

pub data Ending {ℓ} (A : Type ℓ) : Type ℓ where
  returned : A → Ending A
  raised : Raised → Ending A

-- The two calls that are on one side of the point of no return: the restoring of all changes, and
-- the actions behind it.
pub data Crossing : Type 0 where
  changes_restored post_actions_run : Crossing

-- `pre_conversion_results`, `post_conversion_results` and the class attributes of the phases. The
-- model notes in `calls` each call of the two, the last one at the head.
pub record Locals : Type 0 where
  pub pre_results : Option Results
  pub post_results : Option Results
  pub phases : Phases
  pub calls : List Crossing

pub record State (R W : Type 0) : Type 0 where
  pub locals : Locals
  pub control : Control R
  pub world : W

-- What main.py calls of the rest of the program and of the system. A call changes the world, also
-- where it raises; the actions also push changes on the backup controller.
pub record Environment (R W : Type 0) : Type 0 where
  pub restorable : Restorable R W
  -- `tool_opts.activity`
  pub activity : String
  pub initialize_file_logging : W → Result (Unit {0}) × W
  pub perform_boilerplate : W → Result (Unit {0}) × W
  pub gather_system_info : W → Result (Unit {0}) × W
  pub prepare_system : W → Result (Unit {0}) × W
  pub run_pre_actions : Control R → W → Result Results × Control R × W
  pub ask_to_continue : W → Result (Unit {0}) × W
  pub run_post_actions : Control R → W → Result Results × Control R × W
  pub restart_system : W → Result (Unit {0}) × W
  pub finish_collection : Bool → W → Result (Unit {0}) × W
  pub should_subscribe : W → Result Bool × W
  pub update_rhsm_custom_facts : W → Result (Unit {0}) × W
  -- `report._summary`, on results that are not None
  pub print_summary : Results → Bool → W → Result (Unit {0}) × W
  -- `summary_as_json` and `summary_as_txt`
  pub write_json : Results → String → W → Result (Unit {0}) × W
  pub write_txt : Results → String → W → Result (Unit {0}) × W

abbrev pub ending {ℓ} : {A : Type ℓ} → Result A → Ending A
ending (ok a) = returned a
ending (raise e) = raised (exception e)

-- The locals behind `ConversionPhases.set_current(p)`.
unfoldable pub enter_locals : Phase → Locals → Result Locals
enter_locals p l = elim (set_current (some (phase p)) l.phases) [
  | ok phases ↦ ok (record l { phases = phases })
  | raise e ↦ raise e
]

module _ (R W : Type 0) where
  abbrev pub Code {ℓ} : Type ℓ → Type ℓ
  Code A = State R W → Ending A × State R W

module _ {R W : Type 0} where
  infixl 5 ◌>>=◌ ◌>>◌
  unfoldable pub ◌>>=◌ {ℓ κ} :
      {A : Type ℓ} {B : Type κ} → Code R W A → (A → Code R W B) → Code R W B
  (m >>= f) s = elim ((m s).0) [ returned a ↦ f a ((m s).1) | raised e ↦ (raised e, (m s).1) ]

  abbrev pub ◌>>◌ {ℓ κ} : {A : Type ℓ} {B : Type κ} → Code R W A → Code R W B → Code R W B
  m >> k = m >>= λ _. k

  abbrev pub pure {ℓ} : {A : Type ℓ} → A → Code R W A
  pure a s = (returned a, s)

  abbrev pub throw {ℓ} : {A : Type ℓ} → Raised → Code R W A
  throw e s = (raised e, s)

  -- A call that reads and changes the world only.
  unfoldable pub call {ℓ} : {A : Type ℓ} → (W → Result A × W) → Code R W A
  call f s = (ending ((f s.world).0), record s { world = (f s.world).1 })

  -- A call that may also change the backup controller.
  unfoldable pub call_control {ℓ} :
      {A : Type ℓ} → (Control R → W → Result A × Control R × W) → Code R W A
  call_control f s = (
    ending ((f s.control s.world).0),
    record s { control = (f s.control s.world).1; world = (f s.control s.world).2 },
  )

  -- Such a call that is noted, also where it raises.
  unfoldable pub call_noted {ℓ} :
      {A : Type ℓ} → Crossing → (Control R → W → Result A × Control R × W) → Code R W A
  call_noted e f s = (
    ending (f s.control s.world).0,
    record s {
      locals = record s.locals { calls = e ∷ s.locals.calls };
      control = (f s.control s.world).1;
      world = (f s.control s.world).2;
    },
  )

  unfoldable pub read_locals : Code R W Locals
  read_locals s = (returned s.locals, s)

  unfoldable pub set_locals : Locals → Code R W (Unit {0})
  set_locals l s = (returned tt, record s { locals = l })

  unfoldable pub read_control : Code R W (Control R)
  read_control s = (returned s.control, s)

  unfoldable pub enter : Phase → Code R W (Unit {0})
  enter p s = elim (enter_locals p s.locals) [
    | ok l ↦ (returned tt, record s { locals = l })
    | raise e ↦ (raised (exception e), s)
  ]
