-- ===== src/Backup/Undo.antt =====
-- Changes that are pushed and then popped leave the world that was there before
-- (convert2rhel/backup/__init__.py).
use convert2rhel.Prelude.{
  String, List, [], ◌∷◌, ◌++◌, append-nil, append_assoc, ◌≡◌, refl, ◌∙◌, ap, sym, ◌⊎◌, inl, inr,
  Bool-cases, Result-cases, Result, ok, raise, arith, subst,
}
use convert2rhel.Backup.{Restorable, Control, new_control, push, pop_each, pop_all, is_backed_up}
use convert2rhel.Backup.Laws.{restored, List-cases}

module _ {R W : Type 0} (ops : Restorable R W) where
  -- Pushing changes one after another, as the actions do, up to the first that raises.
  unfoldable pub push_each : List R → Control R → W → Result (Unit {0}) × Control R × W
  push_each [] c w = (ok tt, c, w)
  push_each (r ∷ rs) c w = elim ((push ops r c w).0) [
    | ok _ ↦ push_each rs ((push ops r c w).1) ((push ops r c w).2)
    | raise e ↦ (raise e, (push ops r c w).1, (push ops r c w).2)
  ]

  -- A change that was enabled can be restored, and this gives the world before it.
  abbrev pub CanUndo : Type 0
  CanUndo =
      (r : R) (w : W)
      → (ops.enable r w).0 ≡ ok tt
      → ((ops.restore ((ops.enable r w).1) ((ops.enable r w).2)).0 ≡ ok tt)
        × ((ops.restore ((ops.enable r w).1) ((ops.enable r w).2)).2 ≡ w)

  -- Restoring the changes from one world succeeds and ends in the other.
  unfoldable Undoes : List R → W → W → Type 0
  Undoes [] w origin = w ≡ origin
  Undoes (r ∷ rs) w origin = ((ops.restore r w).0 ≡ ok tt) × Undoes rs ((ops.restore r w).2) origin

  abbrev Settled : Control R → W → Result (Unit {0}) × Control R × W → Type 0
  Settled c origin (_, c', w') =
      Undoes c'.restorables w' origin × (c'.rollback_failures ≡ c.rollback_failures)

  push-ok :
      (r : R) (c : Control R) (w : W)
      → (push ops r c w).0 ≡ ok tt
      → (push ops r c w ≡ (ok tt, c, w))
        ⊎ (((ops.enable r w).0 ≡ ok tt)
            × (push ops r c w ≡ (
              ok tt,
              record c { restorables = (ops.enable r w).1 ∷ c.restorables },
              (ops.enable r w).2,
            )))
  unfolding push
  push-ok r c w h = elim (Bool-cases (is_backed_up ops r c.restorables)) [
    | inl b ↦ inl (ground (arith, b))
    | inr b ↦ elim (Result-cases ((ops.enable r w).0)) [
      | inl (_, e) ↦ inr (e, ground (arith, b, e))
      | inr (e, h') ↦ ground (arith, h, b, h')
    ]
  ]

  push-Undoes :
      CanUndo
      → (r : R) (c : Control R) (w origin : W) → Undoes c.restorables w origin
      → (push ops r c w).0 ≡ ok tt
      → Settled c origin (push ops r c w)
  unfolding Undoes
  push-Undoes undo r c w origin u h = elim (push-ok r c w h) [
    | inl e ↦ subst (Settled c origin) (sym e) (u, refl)
    | inr (k, e) ↦
        let (done, back) = undo r w k in
        subst (Settled c origin) (sym e)
          ((done, subst (λ v. Undoes c.restorables v origin) (sym back) u), refl)
  ]

  push_each-step :
      (r : R) (rs : List R) (c : Control R) (w : W)
      → (push_each (r ∷ rs) c w).0 ≡ ok tt
      → ((push ops r c w).0 ≡ ok tt)
        × (push_each (r ∷ rs) c w ≡ push_each rs ((push ops r c w).1) ((push ops r c w).2))
  unfolding push_each
  push_each-step r rs c w h = elim (Result-cases ((push ops r c w).0)) [
    | inl (_, e) ↦ (e, ground (arith, e))
    | inr (e, h') ↦ ground (arith, h, h')
  ]

  push_each-Undoes :
      CanUndo
      → (rs : List R) (c : Control R) (w origin : W) → Undoes c.restorables w origin
      → (push_each rs c w).0 ≡ ok tt
      → Settled c origin (push_each rs c w)
  unfolding push_each
  push_each-Undoes undo [] c w origin u h = (u, refl)
  push_each-Undoes undo (r ∷ rs) c w origin u h =
      let (first, e) = push_each-step r rs c w h in
      let (u', f) = push-Undoes undo r c w origin u first in
      let (u'', f') =
        push_each-Undoes undo rs ((push ops r c w).1) ((push ops r c w).2) origin u'
          (ap (λ t. t.0) (sym e) ∙ h) in
      subst (Settled c origin) (sym e) (u'', f' ∙ f)

  pop_each-Undoes :
      (rs processed : List R) (failures : List String) (w origin : W)
      → Undoes rs w origin
      → pop_each ops rs processed failures w ≡ (
        ok (processed ++ restored ops rs w),
        record { restorables = []; rollback_failures = failures },
        origin,
      )
  unfolding pop_each restored Undoes
  pop_each-Undoes [] processed failures w origin u = rw (append-nil processed, u) refl
  pop_each-Undoes (r ∷ rs) processed failures w origin (h, u) =
      let r' = (ops.restore r w).1 in
      let w' = (ops.restore r w).2 in
      let ih = pop_each-Undoes rs (processed ++ (r' ∷ [])) failures w' origin u in
      ground (arith, h, ih, append_assoc processed (r' ∷ []) (restored ops rs w'))

  -- Where every change that can be enabled can be undone, and all of a list of changes were pushed
  -- on a new controller without an exception, popping all of them gives the world from before and
  -- an empty controller without a failure: also where some of them were equal and pushed once.
  pub push_each-pop_all :
      CanUndo
      → (rs : List R) (w : W) → (push_each rs new_control w).0 ≡ ok tt
      → let (_, c, w') = push_each rs new_control w in
        ((pop_all ops c w').2 ≡ w) × ((pop_all ops c w').1 ≡ new_control)
  unfolding pop_all Undoes
  push_each-pop_all undo rs w h =
      let (u, e) = push_each-Undoes undo rs new_control w w refl h in
      let c = (push_each rs new_control w).1 in
      let w' = (push_each rs new_control w).2 in
      elim (List-cases c.restorables) [
        | inl k ↦
            let k' = subst (λ rs. Undoes rs w' w) k u in
            (ground (arith, k, k'), ground (arith, k, e))
        | inr (x, (xs, k)) ↦
            let k' = subst (λ rs. Undoes rs w' w) k u in
            let p = pop_each-Undoes (x ∷ xs) [] c.rollback_failures w' w k' in
            (ground (arith, k, p), ground (arith, k, p, e))
      ]
