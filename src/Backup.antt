-- ===== src/Backup.antt =====
-- The stack of changes that a rollback undoes (convert2rhel/backup/__init__.py,
-- BackupController). What is pushed on it is any class of RestorableChange: a parameter.
pub mod Laws
pub mod Undo
pub mod Files
pub mod Methods
pub mod Packages
pub mod Certs
pub mod Subscriptions
pub mod Restored
mod Tests
mod Samples
use convert2rhel.Prelude.{
  ℕ, String, ◌<>◌, Bool, true, false, List, [], ◌∷◌, ◌++◌, length, any, truthy, string_eq, Exn,
  is_caught, Result, ok, raise, index_error, if◌then◌else◌,
}

-- The methods of a class of RestorableChange, over its objects `R` and the outside world `W`.
-- A method changes its object and the world, also where it raises.
pub record Restorable (R W : Type 0) : Type 0 where
  -- `__eq__`
  pub same : R → R → Bool
  pub enable : R → W → Result (Unit {0}) × R × W
  pub restore : R → W → Result (Unit {0}) × R × W
  -- `__class__.__name__`
  pub class_name : R → String
  -- `str(e)`
  pub describe : Exn → String

-- The controller, with the change that was added last at the head.
pub record Control (R : Type 0) : Type 0 where
  pub restorables : List R
  pub rollback_failures : List String

module _ {R W : Type 0} (ops : Restorable R W) where
  -- The loop of `push`, which ends it where the change is found.
  unfoldable pub is_backed_up : R → List R → Bool
  is_backed_up restorable [] = false
  is_backed_up restorable (r ∷ rs) =
      let rest = is_backed_up restorable rs in if ops.same r restorable then true else rest

  unfoldable pub push : R → Control R → W → Result (Unit {0}) × Control R × W
  unfolding is_backed_up
  push restorable c w = elim (is_backed_up restorable c.restorables) [
    | true ↦ (ok tt, c, w)
    | false ↦
        let (r, enabled, w') = ops.enable restorable w in
        elim r [
          | ok _ ↦ (ok tt, record c { restorables = enabled ∷ c.restorables }, w')
          | raise e ↦ (raise e, c, w')
        ]
  ]

  unfoldable pub pop : Control R → W → Result R × Control R × W
  pop c w = elim c.restorables [
    | [] ↦ (raise (index_error "No backups to restore"), c, w)
    | restorable ∷ rest ↦
        let (r, restored, w') = ops.restore restorable w in
        elim r [
          | ok _ ↦ (ok restored, record c { restorables = rest }, w')
          | raise e ↦ (raise e, record c { restorables = rest }, w')
        ]
  ]

  unfoldable pub failure_message : R → Exn → String
  failure_message restorable e =
      "Error while rolling back a " <> (ops.class_name restorable <> (": " <> ops.describe e))

  -- The loop of `pop_all`, with `processed_restorables`.
  unfoldable pub pop_each : List R → List R → List String → W → Result (List R) × Control R × W
  unfolding failure_message
  pop_each [] processed failures w =
      (ok processed, record { restorables = []; rollback_failures = failures }, w)
  pop_each (restorable ∷ rest) processed failures w =
      let (r, restored, w') = ops.restore restorable w in
      elim r [
        | ok _ ↦ pop_each rest (processed ++ (restored ∷ [])) failures w'
        | raise e ↦ elim (is_caught e) [
          | true ↦
              pop_each rest (processed ++ (restored ∷ []))
                (failures ++ (failure_message restored e ∷ [])) w'
          | false ↦ (raise e, record { restorables = rest; rollback_failures = failures }, w')
        ]
      ]

  unfoldable pub pop_all : Control R → W → Result (List R) × Control R × W
  unfolding pop_each
  pop_all c w = elim c.restorables [
    | [] ↦ (raise (index_error "No backups to restore"), c, w)
    | r ∷ rs ↦ pop_each (r ∷ rs) [] c.rollback_failures w
  ]

module _ {R : Type 0} where
  -- `any` of the texts: one of them is not empty.
  unfoldable pub rollback_failed : Control R → Bool
  rollback_failed c = any truthy c.rollback_failures

  abbrev pub new_control : Control R
  new_control = record { restorables = []; rollback_failures = [] }

  -- `__len__`
  abbrev pub control_length : Control R → ℕ
  control_length c = length c.restorables
