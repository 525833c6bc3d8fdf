-- ===== src/Thread/Memory/Sequence.antt =====
-- Sequence numbers: the events of a thread are numbered from 1 without a gap.
use agentsdk.Prelude.{
  ℕ, suc, ◌+◌, String, true, some, List, [], ◌∷◌, ◌++◌, ◌==◌, eq_iff, ◌≡◌, refl, ap, subst, arith,
  inl, inr, Bool-cases, is_some, All, All-append,
}
use agentsdk.Prelude.Dict.{lookup, lookup-insert}
use agentsdk.Thread.{Event}
use agentsdk.Thread.Windows.Rooted.{IsRooted}
use agentsdk.Thread.Memory.{MemoryThread, Store, set_thread, stamped, take_event, append_locked}

-- The events carry the numbers from `first` up to, and without, `next`.
abbrev pub IsNumbered : ℕ → List Event → ℕ → Type 0
IsNumbered first [] next = first ≡ next
IsNumbered first (e ∷ events) next = (e.seq ≡ first) × IsNumbered (suc first) events next

IsNumbered-snoc :
    (first next : ℕ) (events : List Event) (e : Event)
    → IsNumbered first events next
    → e.seq ≡ next
    → IsNumbered first (events ++ e ∷ []) (next + 1)
IsNumbered-snoc first next [] e h k = (omega arith, omega arith)
IsNumbered-snoc first next (x ∷ events) e h k =
    (h.0, IsNumbered-snoc (suc first) next events e h.1 k)

-- The branches have their parents before them, and the thread's own branch is one of them.
pub record IsBranched (t : MemoryThread) : Type 0 where
  pub rooted : IsRooted t.branches
  pub default : is_some (lookup t.branch_id t.branches) ≡ true

pub record IsSound (t : MemoryThread) : Type 0 where
  pub numbered : IsNumbered 1 t.events t.next_seq
  pub owned : All (λ e. e.thread_id ≡ t.id) t.events
  pub branched : IsBranched t

pub record IsSoundStore (s : Store) : Type 0 where
  pub at_id : (id : String) (t : MemoryThread) → lookup id s.threads ≡ some t → IsSound t
  pub named : (id : String) (t : MemoryThread) → lookup id s.threads ≡ some t → t.id ≡ id

pub take_event-IsSound :
    (t : MemoryThread) (e : Event)
    → e.seq ≡ t.next_seq
    → e.thread_id ≡ t.id
    → IsSound t
    → IsSound (take_event t e)
take_event-IsSound t e h k v = record {
  numbered = IsNumbered-snoc 1 t.next_seq t.events e v.numbered h;
  owned = All-append (λ (x : Event). x.thread_id ≡ t.id) t.events (e ∷ []) v.owned (k, tt);
  branched = record { rooted = v.branched.rooted; default = v.branched.default };
}

pub append_locked-IsSound :
    (hex : ℕ → String) (now i : ℕ) (branch_id : String) (events : List Event) (t : MemoryThread)
    → IsSound t
    → IsSound (append_locked hex now i branch_id events t)
unfolding append_locked
append_locked-IsSound hex now i branch_id [] t v = v
append_locked-IsSound hex now i branch_id (e ∷ events) t v =
    append_locked-IsSound hex now (suc i) branch_id events
      (take_event t (stamped (hex i) now t branch_id e))
      (take_event-IsSound t (stamped (hex i) now t branch_id e) refl refl v)

pub id-append_locked :
    (hex : ℕ → String) (now i : ℕ) (branch_id : String) (events : List Event) (t : MemoryThread)
    → (append_locked hex now i branch_id events t).id ≡ t.id
unfolding append_locked
id-append_locked hex now i branch_id [] t = refl
id-append_locked hex now i branch_id (e ∷ events) t =
    id-append_locked hex now (suc i) branch_id events
      (take_event t (stamped (hex i) now t branch_id e))

pub set_thread-IsSoundStore :
    (s : Store) (id : String) (t : MemoryThread)
    → IsSound t
    → t.id ≡ id
    → IsSoundStore s
    → IsSoundStore (set_thread s id t)
set_thread-IsSoundStore s id t v e w = record {
  at_id = λ j u h. elim (Bool-cases (id == j)) [
    | inl same ↦
        let f : t ≡ u = ground (arith, h, same, lookup-insert id j t s.threads) in subst IsSound f v
    | inr other ↦ w.at_id j u (ground (arith, h, other, lookup-insert id j t s.threads))
  ];
  named = λ j u h. ground (
    arith,
    h,
    lookup-insert id j t s.threads,
    w.named j u,
    eq_iff id j,
    ap (λ (x : MemoryThread). x.id) {x = t} {y = u},
  );
}
