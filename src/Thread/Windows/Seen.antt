-- ===== src/Thread/Windows/Seen.antt =====
-- Which events a branch sees, from the branch up: the windows of thread/store.go come to the same.
use agentsdk.Prelude.{
  ℕ, zero, suc, String, Bool, true, false, some, List, [], ◌∷◌, ◌++◌, ◌==◌, ◌&&◌, inl, inr,
  if◌then◌else◌, ltb, leb, ◌≡◌, refl, subst, ap, ◌∙◌, arith, Bool-cases, reverse,
}
use mathlib.Core.List.{reverse-cons}
use agentsdk.Prelude.Dict.{Dict, lookup, insert, lookup-insert}
use agentsdk.Prelude.Result.{ok}
use agentsdk.Thread.{Event, Branch}
use agentsdk.Thread.Windows.{Window, ancestors, path_windows, in_window, events_in}
use agentsdk.Thread.Windows.Rooted.{ancestors-suc}

-- The named branch, its parent, the parent of that, and so on to the root.
abbrev pub IsLineage : Dict Branch → String → List Branch → Type 0
IsLineage d name [] = (name == "") ≡ true
IsLineage d name (b ∷ l) =
    ((name == "") ≡ false) × (lookup name d ≡ some b) × IsLineage d b.parent l

-- The numbers of a branch that has `after` events before it and, from a limit above 0 on, a fork.
abbrev pub is_between : ℕ → ℕ → ℕ → Bool
is_between after limit n = ltb after n && (if ltb 0 limit then leb n limit else true)

-- An event of the nearest branch of its name, if it is not from before that branch or from after
-- the fork of the branch below.
abbrev pub is_seen : ℕ → List Branch → Event → Bool
is_seen limit [] e = false
is_seen limit (b ∷ l) e =
    if b.id == e.branch_id then is_between b.fork_seq limit e.seq else is_seen b.fork_seq l e

abbrev pub seen : List Branch → List Event → List Event
seen l [] = []
seen l (e ∷ events) = let rest = seen l events in if is_seen 0 l e then e ∷ rest else rest

pub ancestors-IsLineage :
    (fuel : ℕ) (d : Dict Branch) (name : String) {p : List Branch}
    → ancestors fuel d name ≡ some (ok p)
    → IsLineage d name p
unfolding ancestors
ancestors-IsLineage zero d name {p} h = elim (Bool-cases (name == "")) [
  | inl root ↦ let k : [] ≡ p = ground (arith, h, root) in subst (IsLineage d name) k root
  | inr deep ↦ absurd (ground (arith, deep, h))
]
ancestors-IsLineage (suc fuel) d name {p} h = elim (Bool-cases (name == "")) [
  | inl root ↦ let k : [] ≡ p = ground (arith, h, root) in subst (IsLineage d name) k root
  | inr deep ↦
      let (b, rest, found, e, split) = ancestors-suc fuel d name deep h in
      rw split (deep, found, ancestors-IsLineage fuel d b.parent e)
]

-- The windows of a path whose last branch has a limit.
abbrev limited : ℕ → List Branch → Dict Window → Dict Window
limited limit [] w = w
limited limit (b ∷ []) w = insert b.id (record { after = b.fork_seq; until = limit }) w
limited limit (b ∷ next ∷ l) w =
    limited limit (next ∷ l) (insert b.id (record { after = b.fork_seq; until = next.fork_seq }) w)

path_windows-limited : (l : List Branch) (w : Dict Window) → path_windows l w ≡ limited 0 l w
unfolding path_windows
path_windows-limited [] w = refl
path_windows-limited (b ∷ []) w = refl
path_windows-limited (b ∷ c ∷ l) w = path_windows-limited (c ∷ l) _

limited-append :
    (limit : ℕ) (l : List Branch) (b : Branch) (w : Dict Window)
    → limited limit (l ++ b ∷ []) w
      ≡ insert b.id (record { after = b.fork_seq; until = limit }) (limited b.fork_seq l w)
limited-append limit [] b w = refl
limited-append limit (a ∷ []) b w = refl
limited-append limit (a ∷ c ∷ l) b w = limited-append limit (c ∷ l) b _

in_window-insert :
    (k : String) (v : Window) (w : Dict Window) (e : Event)
    → in_window (insert k v w) e
      ≡ (if k == e.branch_id then is_between v.after v.until e.seq else in_window w e)
unfolding in_window
in_window-insert k v w e = ground (arith, lookup-insert k e.branch_id v w)

in_window-is_seen :
    (limit : ℕ) (l : List Branch) (e : Event)
    → in_window (limited limit (reverse l) []) e ≡ is_seen limit l e
unfolding in_window lookup
in_window-is_seen limit [] e = refl
in_window-is_seen limit (b ∷ l) e =
    ap (λ p. in_window (limited limit p []) e) (reverse-cons b l)
    ∙ (ap (λ w. in_window w e) (limited-append limit (reverse l) b [])
        ∙ (in_window-insert b.id (record { after = b.fork_seq; until = limit })
              (limited b.fork_seq (reverse l) []) e
            ∙ ap (λ x. if b.id == e.branch_id then is_between b.fork_seq limit e.seq else x)
                (in_window-is_seen b.fork_seq l e)))

pub events_in-seen :
    (l : List Branch) (events : List Event)
    → events_in (path_windows (reverse l) []) events ≡ seen l events
unfolding events_in
events_in-seen l [] = refl
events_in-seen l (e ∷ events) =
    let k : in_window (path_windows (reverse l) []) e ≡ is_seen 0 l e =
      ap (λ w. in_window w e) (path_windows-limited (reverse l) []) ∙ in_window-is_seen 0 l e in
    ground (arith, k, events_in-seen l events)
