-- ===== src/Backup/Laws.antt =====
-- What popping all the changes does, whatever they raise (convert2rhel/backup/__init__.py).
use convert2rhel.Prelude.{
  String, true, List, [], ◌∷◌, ◌++◌, append-nil, append_assoc, has_items, ◌≡◌, refl, Exn, is_caught,
  Result, ok, raise, arith, Result-cases, inl, inr, if◌then◌else◌, index_error, ◌⊎◌,
}
use convert2rhel.Backup.{Restorable, Control, pop_each, pop_all, failure_message}

pub List-cases {ℓ} :
    {A : Type ℓ} (xs : List A) → (xs ≡ []) ⊎ ((x : A) × ((ys : List A) × (xs ≡ x ∷ ys)))
List-cases [] = inl refl
List-cases (x ∷ xs) = inr (x, (xs, refl))

module _ {R W : Type 0} (ops : Restorable R W) where
  -- The world behind the restoring of a list of changes, each once and in its order.
  unfoldable pub unwound : List R → W → W
  unwound [] w = w
  unwound (r ∷ rs) w = unwound rs ((ops.restore r w).2)

  -- The objects that this leaves.
  unfoldable pub restored : List R → W → List R
  restored [] w = []
  restored (r ∷ rs) w = (ops.restore r w).1 ∷ restored rs ((ops.restore r w).2)

  abbrev message_of : R → Result (Unit {0}) → List String
  message_of r (ok _) = []
  message_of r (raise e) = failure_message ops r e ∷ []

  -- A message for each change whose restoring raises.
  unfoldable pub messages_of : List R → W → List String
  messages_of [] w = []
  messages_of (r ∷ rs) w =
      message_of ((ops.restore r w).1) ((ops.restore r w).0) ++ messages_of rs ((ops.restore r w).2)

  -- No restoring is interrupted by the user.
  abbrev pub IsUninterrupted : Type 0
  IsUninterrupted = (r : R) (w : W) (e : Exn) → (ops.restore r w).0 ≡ raise e → is_caught e ≡ true

  pop_each-unwinds :
      IsUninterrupted
      → (rs processed : List R) (failures : List String) (w : W)
      → pop_each ops rs processed failures w ≡ (
        ok (processed ++ restored rs w),
        record { restorables = []; rollback_failures = failures ++ messages_of rs w },
        unwound rs w,
      )
  unfolding pop_each restored messages_of unwound
  pop_each-unwinds u [] processed failures w = rw (append-nil processed, append-nil failures) refl
  pop_each-unwinds u (r ∷ rs) processed failures w =
      let r' = (ops.restore r w).1 in
      let w' = (ops.restore r w).2 in
      elim (Result-cases ((ops.restore r w).0)) [
        | inl (_, h) ↦
            let ih = pop_each-unwinds u rs (processed ++ (r' ∷ [])) failures w' in
            ground (arith, h, ih, append_assoc processed (r' ∷ []) (restored rs w'))
        | inr (e, h) ↦
            let m = failure_message ops r' e ∷ [] in
            let ih = pop_each-unwinds u rs (processed ++ (r' ∷ [])) (failures ++ m) w' in
            ground (
              arith,
              h,
              u r w e h,
              ih,
              append_assoc processed (r' ∷ []) (restored rs w'),
              append_assoc failures m (messages_of rs w'),
            )
      ]

  -- Where the user does not interrupt, popping all the changes restores each of them once, the one
  -- that was added last first, also behind one that fails; no change is left, and each failure
  -- leaves its message behind those that were there. Without a change it raises IndexError and
  -- does nothing.
  pub pop_all-unwinds :
      IsUninterrupted
      → (c : Control R) (w : W)
      → pop_all ops c w ≡ (
          if has_items c.restorables
          then (
            ok (restored c.restorables w),
            record {
              restorables = [];
              rollback_failures = c.rollback_failures ++ messages_of c.restorables w;
            },
            unwound c.restorables w,
          )
          else (raise (index_error "No backups to restore"), c, w))
  unfolding pop_all
  pop_all-unwinds u c w = elim (List-cases c.restorables) [
    | inl h ↦ ground (arith, h)
    | inr (r, (rs, h)) ↦ ground (arith, h, pop_each-unwinds u (r ∷ rs) [] c.rollback_failures w)
  ]
