-- ===== src/Utils/Remove.antt =====
-- The removal of packages: remove_pkgs of convert2rhel/utils/__init__.py.
use convert2rhel.Prelude.{
  ℕ, String, Bool, true, false, ◌&&◌, Option, none, some, List, [], ◌∷◌, has_items, ◌==◌, nat_eq,
  Result, ok, raise, critical_error, if◌then◌else◌, ◌≡◌, refl, ap, arith, Bool-cases, inl, inr,
}
use convert2rhel.Prelude.Text.{Char, same_char}

-- What the code calls: the class of `\d`, and `rpm -e --nodeps`, with its return code.
pub record Rpm (W : Type 0) : Type 0 where
  pub is_digit : Char → Bool
  pub erase : String → W → ℕ × W

-- `(.*)`, which ends before a newline
unfoldable pub first_line : String → String
first_line String.[] = ""
first_line (String.◌∷◌ c s) =
    let rest = first_line s in if same_char c "\n" then "" else String.◌∷◌ c rest

pub record Removed (W : Type 0) : Type 0 where
  pub removed : List String
  pub failed : List String
  pub world : W

module _ {W : Type 0} (rpm : Rpm W) where
  -- What `^\d+:(.*)` has in its group, behind digits or not.
  unfoldable pub behind_epoch : (seen : Bool) → String → Option String
  behind_epoch seen String.[] = none
  behind_epoch seen (String.◌∷◌ c s) =
      let rest = behind_epoch true s in
      if rpm.is_digit c then rest else if seen && same_char c ":" then some (first_line s) else none

  -- `_remove_epoch_from_yum_nevra_notation`
  unfoldable pub remove_epoch : String → String
  remove_epoch nevra = elim (behind_epoch false nevra) [ none ↦ nevra | some nvra ↦ nvra ]

  -- The loop of `remove_pkgs`
  unfoldable pub remove_each : List String → W → Removed W
  remove_each [] w = record { removed = []; failed = []; world = w }
  remove_each (nevra ∷ rest) w =
      let (code, w') = rpm.erase (remove_epoch nevra) w in
      let r = remove_each rest w' in
      if code == 0
      then record r { removed = nevra ∷ r.removed }
      else record r { failed = nevra ∷ r.failed }

  -- `remove_pkgs`
  unfoldable pub remove_pkgs : List String → (critical : Bool) → W → Result (List String) × W
  remove_pkgs [] critical w = (ok [], w)
  remove_pkgs (nevra ∷ rest) critical w =
      let r = remove_each (nevra ∷ rest) w in
      if has_items r.failed && critical
      then (raise critical_error, r.world)
      else (ok r.removed, r.world)

  none_failed :
      (nevras : List String) (w : W)
      → has_items (remove_each nevras w).failed ≡ false
      → (remove_each nevras w).removed ≡ nevras
  unfolding remove_each
  none_failed [] w h = refl
  none_failed (nevra ∷ rest) w h = elim (Bool-cases ((rpm.erase (remove_epoch nevra) w).0 == 0)) [
    | inl e ↦ rw e (
        ap (λ r. nevra ∷ r)
          (none_failed rest ((rpm.erase (remove_epoch nevra) w).1) (ground (arith, e, h))))
    | inr e ↦ ground (arith, e, h)
  ]

  -- Where the removal is critical and returns, every package was removed: the list that is returned
  -- is the one that was given. Otherwise it raises a CriticalError.
  pub remove_pkgs-removes_all :
      (nevras : List String) (w : W)
      → let (r, w') = remove_pkgs nevras true w in
        r ≡ (if has_items (remove_each nevras w).failed then raise critical_error else ok nevras)
  unfolding remove_pkgs remove_each
  remove_pkgs-removes_all [] w = refl
  remove_pkgs-removes_all (nevra ∷ rest) w = ground (arith, none_failed (nevra ∷ rest) w)
