-- ===== src/Planner/Steps.antt =====
-- Lookups and updates in a plan's list of steps.
use mathlib.Core.List.{Memᴰ}
use agentsdk.Prelude.{
  ℕ, zero, suc, ◌-◌, ◌<◌, String, true, false, some, List, [], ◌∷◌, ◌++◌, ◌==◌, eq_iff,
  if◌then◌else◌, ◌≡◌, refl, ap, arith, is_some, All, All-map, All-Memᴰ,
}
use agentsdk.Planner.{Step, find_step, update_at, remove_at, filter_string}
use agentsdk.Planner.Topo.Count.{count}
use agentsdk.Planner.Topo.Degrees.{ids}
use agentsdk.Planner.Topo.Correct.{IsBefore, SameSteps}

pub find_step-counted :
    (steps : List Step) (id : String)
    → is_some (find_step steps id) ≡ true
    → 0 < count id (ids steps)
unfolding find_step
find_step-counted [] id h = absurd (cc)
find_step-counted (s ∷ steps) id h =
    ground (arith, find_step-counted steps id, eq_iff id s.id, eq_iff s.id id)

pub find_step-absent :
    (steps : List Step) (id : String)
    → is_some (find_step steps id) ≡ false
    → count id (ids steps) ≡ 0
unfolding find_step
find_step-absent [] id h = refl
find_step-absent (s ∷ steps) id h =
    ground (arith, find_step-absent steps id, eq_iff id s.id, eq_iff s.id id)

pub ids-update_at :
    (i : ℕ) (f : Step → Step) (steps : List Step)
    → ((s : Step) → (f s).id ≡ s.id)
    → ids (update_at i f steps) ≡ ids steps
unfolding update_at
ids-update_at i f [] k = refl
ids-update_at zero f (s ∷ steps) k = ap (λ x. x ∷ ids steps) (k s)
ids-update_at (suc i) f (s ∷ steps) k = ap (λ l. s.id ∷ l) (ids-update_at i f steps k)

pub All-update_at :
    (P : Step → Type 0) (i : ℕ) (f : Step → Step) (steps : List Step)
    → ((s : Step) → P s → P (f s))
    → All P steps
    → All P (update_at i f steps)
unfolding update_at
All-update_at P i f [] k h = tt
All-update_at P zero f (s ∷ steps) k h = (k s h.0, h.1)
All-update_at P (suc i) f (s ∷ steps) k h = (h.0, All-update_at P i f steps k h.1)

-- A change that keeps ids and dependencies keeps the order.
pub IsBefore-update_at :
    (seen : List String) (i : ℕ) (f : Step → Step) (steps : List Step)
    → ((s : Step) → (f s).id ≡ s.id)
    → ((s : Step) → (f s).depends_on ≡ s.depends_on)
    → IsBefore seen steps
    → IsBefore seen (update_at i f steps)
unfolding update_at
IsBefore-update_at seen i f [] k e h = tt
IsBefore-update_at seen zero f (s ∷ steps) k e h = (λ d p. h.0 d (rw e at p), rw k h.1)
IsBefore-update_at seen (suc i) f (s ∷ steps) k e h =
    (h.0, IsBefore-update_at (seen ++ s.id ∷ []) i f steps k e h.1)

pub All-remove_at :
    (P : Step → Type 0) (i : ℕ) (steps : List Step) → All P steps → All P (remove_at i steps)
unfolding remove_at
All-remove_at P i [] h = tt
All-remove_at P zero (s ∷ steps) h = h.1
All-remove_at P (suc i) (s ∷ steps) h = (h.0, All-remove_at P i steps h.1)

-- Removing the step that `findStep` finds takes its id away once.
pub count-remove_at :
    (steps : List Step) (id : String) (i : ℕ) (x : String)
    → find_step steps id ≡ some i
    → count x (ids (remove_at i steps))
      ≡ (if x == id then count x (ids steps) - 1 else count x (ids steps))
unfolding find_step remove_at
count-remove_at [] id i x h = absurd (cc)
count-remove_at (s ∷ steps) id zero x h = ground (arith, eq_iff s.id id)
count-remove_at (s ∷ steps) id (suc i) x h = ground (
  arith,
  count-remove_at steps id i x,
  eq_iff s.id id,
  eq_iff x id,
  eq_iff x s.id,
  find_step-counted steps id,
)

pub count-filter_string :
    (deps : List String) (id x : String)
    → count x (filter_string deps id) ≡ (if x == id then 0 else count x deps)
unfolding filter_string
count-filter_string [] id x = ground arith
count-filter_string (d ∷ deps) id x =
    ground (arith, count-filter_string deps id x, eq_iff d id, eq_iff x id, eq_iff x d)

-- What holds of the steps holds of the sorted ones.
pub All-SameSteps :
    (P : Step → Type 0) (steps out : List Step) → SameSteps steps out → All P steps → All P out
All-SameSteps P steps out same h =
    All-map {P = λ s. Memᴰ s steps} {Q = P} (λ s m. All-Memᴰ P h m) out same.given
