-- ===== src/Workflow/Execute/Ready.antt =====
-- `readySteps` of workflow/workflow.go finds a step until all are done.
use agentsdk.Prelude.{
  suc, ◌≤◌, ◌<◌, String, Bool, true, false, Option, List, [], ◌∷◌, ◌++◌, ◌==◌, ◌≡◌, ◌≢◌, refl, ap,
  sym, ◌∙◌, subst, arith, inl, inr, Bool-cases, if◌then◌else◌, length, length-map, map, eq_iff, All,
}
use agentsdk.Prelude.Count.{count, count-append, length-le_of_count}
use agentsdk.Prelude.Dict.{Dict, lookup, lookup_or}
use agentsdk.Workflow.{Step}
use agentsdk.Workflow.Order.Placing.{placed, placed-snoc, IsDepsFirst, start, next}
use agentsdk.Workflow.Batch.{deps_done, ready_steps}

abbrev pub is_done : String → Dict Bool → Bool
is_done x done = lookup_or false x done

abbrev pub keys : Dict Bool → List String
keys [] = []
keys ((k, _) ∷ d) = k ∷ keys d

length-keys : (d : Dict Bool) → length (keys d) ≡ length d
length-keys [] = refl
length-keys ((k, _) ∷ d) = ap suc (length-keys d)

count-keys : (x : String) (d : Dict Bool) → is_done x d ≡ true → 0 < count x (keys d)
unfolding lookup_or lookup
count-keys x [] h = absurd (cc)
count-keys x ((k, b) ∷ d) h = ground (arith, count-keys x d, eq_iff k x, eq_iff x k)

All-deps_done :
    (done : Dict Bool) (deps : List String)
    → All (λ x. is_done x done ≡ true) deps
    → deps_done done deps ≡ true
unfolding deps_done
All-deps_done done [] h = refl
All-deps_done done (dep ∷ deps) h = ground (arith, h.0, All-deps_done done deps h.1)

module _ {V : Type 0} where
  ready_steps-append :
      (l r : List (Step V)) (done : Dict Bool)
      → ready_steps (l ++ r) done ≡ ready_steps l done ++ ready_steps r done
  unfolding ready_steps
  ready_steps-append [] r done = refl
  ready_steps-append (step ∷ l) r done = ground (arith, ready_steps-append l r done)

  append-nil : (l r : List (Step V)) → l ++ r ≡ [] → (l ≡ []) × (r ≡ [])
  append-nil [] r h = (refl, h)
  append-nil (x ∷ l) r h = absurd (cc)

  All-of_placed :
      (P : String → Type 0) (l : List (Step V)) (deps : List String)
      → ((x : String) → placed x l ≡ true → P x)
      → All (λ dep. placed dep l ≡ true) deps
      → All P deps
  All-of_placed P l [] f h = tt
  All-of_placed P l (dep ∷ deps) f h = (f dep h.0, All-of_placed P l deps f h.1)

  -- In an order that runs the steps, no step is ready only if all are done.
  pub ready_steps-nil :
      (known : String → Option (Step V)) (l : List (Step V)) (done : Dict Bool)
      → IsDepsFirst V known l
      → ready_steps l done ≡ []
      → (x : String) → placed x l ≡ true
      → is_done x done ≡ true
  unfolding placed ready_steps
  ready_steps-nil known l done start h x m = absurd (cc)
  ready_steps-nil known l done (next r step o k n d) h x m =
      let (before, last) =
        append-nil (ready_steps r done) (ready_steps (step ∷ []) done)
          (sym (ready_steps-append r (step ∷ []) done) ∙ h) in
      let all = ready_steps-nil known r done o before in
      let deps : deps_done done step.depends_on ≡ true =
        All-deps_done done step.depends_on
          (All-of_placed (λ y. is_done y done ≡ true) r step.depends_on all d) in
      elim (Bool-cases (step.id == x)) [
        | inl here ↦
            let e : step.id ≡ x = ground (arith, here, eq_iff step.id x) in
            subst (λ y. is_done y done ≡ true) e (alone step done deps last)
        | inr other ↦ all x (ground (arith, m, placed-snoc x r step, other))
      ]
    where
      alone :
          (step : Step V) (done : Dict Bool)
          → deps_done done step.depends_on ≡ true
          → ready_steps (step ∷ []) done ≡ []
          → is_done step.id done ≡ true
      alone step done deps h = elim (Bool-cases (is_done step.id done)) [
        | inl yet ↦ yet
        | inr not_yet ↦ absurd (ground (arith, h, deps, not_yet))
      ]

  abbrev pub ids : List (Step V) → List String
  ids l = map {A = Step V} (λ step. step.id) l

  count-ids_le :
      (known : String → Option (Step V)) (l : List (Step V)) (x : String)
      → IsDepsFirst V known l
      → count x (ids l) ≤ (if placed x l then 1 else 0)
  unfolding placed
  count-ids_le known l x start = omega arith
  count-ids_le known l x (next r step o k n d) =
      let e : ids (r ++ step ∷ []) ≡ ids r ++ step.id ∷ [] = ids-snoc r step in
      ground (
        arith,
        ap (count x) e,
        count-append x (ids r) (step.id ∷ []),
        count-ids_le known r x o,
        placed-snoc x r step,
        n,
        eq_iff x step.id,
        eq_iff step.id x,
      )
    where
      ids-snoc : (r : List (Step V)) (step : Step V) → ids (r ++ step ∷ []) ≡ ids r ++ step.id ∷ []
      ids-snoc [] step = refl
      ids-snoc (s ∷ r) step = ap (λ l. s.id ∷ l) (ids-snoc r step)

  -- As long as fewer ids are done than there are steps, a step is ready.
  pub ready_steps_live :
      (known : String → Option (Step V)) (l : List (Step V)) (done : Dict Bool)
      → IsDepsFirst V known l
      → length done < length l
      → ready_steps l done ≢ []
  ready_steps_live known l done o n h =
      let all = ready_steps-nil known l done o h in
      let fewer : (x : String) → count x (ids l) ≤ count x (keys done) = λ x.
        elim (Bool-cases (placed x l)) [
          | inl there ↦
              ground (arith, count-ids_le known l x o, there, count-keys x done (all x there))
          | inr away ↦ ground (arith, count-ids_le known l x o, away)
        ] in
      omega (
        arith,
        n,
        length-le_of_count (ids l) (keys done) fewer,
        length-keys done,
        length-map l (λ (step : Step V). step.id),
      )
