-- ===== src/Thread/Memory/Keeping.antt =====
-- Each call of thread/memorystore.go keeps the store sound.
use agentsdk.Prelude.{
  ℕ, ◌-◌, String, Bool, true, false, Option, none, some, List, [], ◌∷◌, eq_iff, nat_eq,
  if◌then◌else◌, ◌≡◌, refl, ◌∙◌, arith, inl, inr, Bool-cases, Option-cases, is_some,
}
use agentsdk.Prelude.Dict.{Dict, lookup, erase, insert, lookup-insert, lookup-erase, erase-fresh}
use agentsdk.Prelude.Result.{Result-cases}
use agentsdk.Thread.{
  Event, Branch, EventSource, or_else, new_thread_id, new_branch_id, main_branch, bare_event,
  thread_archived, thread_unarchived,
}
use agentsdk.Thread.Memory.{
  MemoryThread, Store, Live, set_thread, validate_event, append_locked, CreateParams, created_event,
  created_thread, create, ForkParams, add_branch, fork_event, fork_thread, fork, set_archived,
  batch, append,
}
use agentsdk.Thread.Memory.Sequence.{
  IsBranched, IsSound, IsSoundStore, append_locked-IsSound, id-append_locked,
  set_thread-IsSoundStore,
}

created-IsBranched :
    (id branch_id : String) (now : ℕ) (created : Event) (metadata : Option (Dict String))
    → IsBranched (created_thread id branch_id now created metadata)
unfolding lookup
created-IsBranched id branch_id now created metadata = record {
  rooted = (refl, refl, tt);
  default = ground (arith, eq_iff branch_id branch_id);
}

pub create-IsSoundStore :
    (ctx_err : Bool) (hex event_hex : String) (clock : ℕ) (p : CreateParams) (s : Store)
    → IsSoundStore s
    → IsSoundStore (create ctx_err hex event_hex clock p s).0
unfolding create
create-IsSoundStore true hex event_hex clock p s w = w
create-IsSoundStore false hex event_hex clock p s w =
    let id = or_else p.id (new_thread_id hex) in
    let branch_id = or_else p.branch_id main_branch in
    let now = (if nat_eq p.now 0 then clock else p.now) in
    let created = created_event event_hex id branch_id now p in
    elim (Bool-cases (is_some (lookup id s.threads))) [
      | inl taken ↦ rw taken w
      | inr free ↦ rw free (elim (Option-cases (validate_event s created)) [
        | inr (e, bad) ↦ rw bad w
        | inl good ↦ rw good (
            set_thread-IsSoundStore s id (created_thread id branch_id now created p.metadata)
              (record {
                numbered = (refl, refl);
                owned = (refl, tt);
                branched = created-IsBranched id branch_id now created p.metadata;
              })
              refl w)
      ])
    ]

-- The thread as it was but for its branches and its flag.
record Kept (t u : MemoryThread) : Type 0 where
  id_kept : u.id ≡ t.id
  seq_kept : u.next_seq ≡ t.next_seq
  events_kept : u.events ≡ t.events
  branched : IsBranched u

Kept-IsSound : (t u : MemoryThread) → Kept t u → IsSound t → IsSound u
Kept-IsSound t u k v = record {
  numbered = rw (k.seq_kept, k.events_kept) v.numbered;
  owned = rw (k.id_kept, k.events_kept) v.owned;
  branched = k.branched;
}

as_it_was : (t : MemoryThread) → IsSound t → Kept t t
as_it_was t v = record {
  id_kept = refl;
  seq_kept = refl;
  events_kept = refl;
  branched = v.branched;
}

flagged-Kept :
    (t : MemoryThread) (archived : Bool) → IsSound t → Kept t (record t { archived = archived })
flagged-Kept t archived v = record {
  id_kept = refl;
  seq_kept = refl;
  events_kept = refl;
  branched = record { rooted = v.branched.rooted; default = v.branched.default };
}

add_branch-Kept :
    (t : MemoryThread) (from to : String) (now : ℕ)
    → is_some (lookup from t.branches) ≡ true
    → is_some (lookup to t.branches) ≡ false
    → IsSound t
    → Kept t (add_branch t from to now)
unfolding insert
add_branch-Kept t from to now known free v =
    let fresh : lookup to t.branches ≡ none =
      ground (arith, free, Option-cases (lookup to t.branches)) in
    let branch : Branch = record {
      id = to;
      parent = from;
      fork_seq = t.next_seq - 1;
      created_at = now;
    } in
    record {
      id_kept = refl;
      seq_kept = refl;
      events_kept = refl;
      branched = record {
        rooted =
            rw (erase-fresh to t.branches fresh) (fresh, ground (arith, known), v.branched.rooted);
        default =
            ground (arith, lookup-insert to t.branch_id branch t.branches, v.branched.default);
      };
    }

-- A thread of the store takes its place again, with other branches or flags, and with a batch.
flagged-IsSoundStore :
    (s : Store) (id : String) (t u : MemoryThread)
    → lookup id s.threads ≡ some t
    → Kept t u
    → IsSoundStore s
    → IsSoundStore (set_thread s id u)
flagged-IsSoundStore s id t u h k w =
    set_thread-IsSoundStore s id u (Kept-IsSound t u k (w.at_id id t h))
      (k.id_kept ∙ w.named id t h) w

batch-IsSoundStore :
    (hex : ℕ → String) (now : ℕ) (branch_id : String) (events : List Event) (s : Store)
    (id : String) (t u : MemoryThread)
    → lookup id s.threads ≡ some t
    → Kept t u
    → IsSoundStore s
    → IsSoundStore (set_thread s id (append_locked hex now 0 branch_id events u))
batch-IsSoundStore hex now branch_id events s id t u h k w =
    set_thread-IsSoundStore s id (append_locked hex now 0 branch_id events u)
      (append_locked-IsSound hex now 0 branch_id events u (Kept-IsSound t u k (w.at_id id t h)))
      (id-append_locked hex now 0 branch_id events u ∙ (k.id_kept ∙ w.named id t h)) w

fork_thread-IsSoundStore :
    (event_hex : ℕ → String) (now : ℕ) (s : Store) (t : MemoryThread) (id from to : String)
    (source : EventSource)
    → lookup id s.threads ≡ some t
    → is_some (lookup from t.branches) ≡ true
    → is_some (lookup to t.branches) ≡ false
    → IsSoundStore s
    → IsSoundStore (fork_thread event_hex now s t id from to source).0
fork_thread-IsSoundStore event_hex now s t id from to source h known free w =
    let kept = add_branch-Kept t from to now known free (w.at_id id t h) in
    let event = fork_event from to (t.next_seq - 1) now source in
    let forked = add_branch t from to now in
    elim (Option-cases (validate_event s event)) [
      | inr (e, bad) ↦ rw (bad, fork_thread) (flagged-IsSoundStore s id t forked h kept w)
      | inl good ↦
          rw (good, fork_thread)
            (batch-IsSoundStore event_hex now to (event ∷ []) s id t forked h kept w)
    ]

pub fork-IsSoundStore :
    (ctx_err : Bool) (hex : String) (event_hex : ℕ → String) (now : ℕ) (p : ForkParams) (s : Store)
    → IsSoundStore s
    → IsSoundStore (fork ctx_err hex event_hex now p s).0
unfolding fork append_locked
fork-IsSoundStore true hex event_hex now p s w = w
fork-IsSoundStore false hex event_hex now p s w = elim (Option-cases (lookup p.id s.threads)) [
  | inl missing ↦ rw missing w
  | inr (t, found) ↦ rw found (
      let from = or_else (or_else p.from_branch_id t.branch_id) main_branch in
      let to = or_else p.to_branch_id (new_branch_id hex) in
      elim (Bool-cases (is_some (lookup from t.branches))) [
        | inr no_source ↦ rw no_source w
        | inl source ↦ rw source (elim (Bool-cases (is_some (lookup to t.branches))) [
          | inl taken ↦ rw taken w
          | inr free ↦
              rw free (
                fork_thread-IsSoundStore event_hex now s t p.id from to p.source found source free
                  w)
        ])
      ])
]

pub set_archived-IsSoundStore :
    (ctx_err archived : Bool) (hex : ℕ → String) (now : ℕ) (id : String) (s : Store)
    → IsSoundStore s
    → IsSoundStore (set_archived ctx_err archived hex now id s).0
unfolding set_archived append_locked
set_archived-IsSoundStore true archived hex now id s w = w
set_archived-IsSoundStore false archived hex now id s w =
    elim (Option-cases (lookup id s.threads)) [
      | inl missing ↦ rw missing w
      | inr (t, found) ↦ rw found (
          let flagged : MemoryThread = record t { archived = archived } in
          let event = bare_event (if archived then thread_archived else thread_unarchived) in
          elim (Option-cases (validate_event s event)) [
            | inr (e, bad) ↦ rw bad (
                flagged-IsSoundStore s id t flagged found
                  (flagged-Kept t archived (w.at_id id t found)) w)
            | inl good ↦ rw good (
                batch-IsSoundStore hex now t.branch_id (event ∷ []) s id t flagged found
                  (flagged-Kept t archived (w.at_id id t found)) w)
          ])
    ]

pub append-IsSoundStore :
    (ctx_err : Bool) (hex : ℕ → String) (now : ℕ) (l : Live) (events : List Event) (s : Store)
    → IsSoundStore s
    → IsSoundStore (append ctx_err hex now l events s).0
unfolding append
append-IsSoundStore true hex now l [] s w = w
append-IsSoundStore false hex now l [] s w = w
append-IsSoundStore true hex now l (e ∷ events) s w = w
append-IsSoundStore false hex now l (e ∷ events) s w = elim (Bool-cases l.closed) [
  | inl shut ↦ rw shut w
  | inr opened ↦ rw opened (elim (Option-cases (lookup l.thread_id s.threads)) [
    | inl missing ↦ rw missing w
    | inr (t, found) ↦ rw found (elim (Result-cases (batch s l (e ∷ events))) [
      | inl (x, bad) ↦ rw bad w
      | inr (es, good) ↦ rw good (
          batch-IsSoundStore hex now l.branch_id es s l.thread_id t t found
            (as_it_was t (w.at_id l.thread_id t found)) w)
    ])
  ])
]

pub erase-IsSoundStore :
    (s : Store) (id : String)
    → IsSoundStore s
    → IsSoundStore (record s { threads = erase id s.threads })
erase-IsSoundStore s id w = record {
  at_id = λ j u h. w.at_id j u (ground (arith, h, lookup-erase id j s.threads));
  named = λ j u h. w.named j u (ground (arith, h, lookup-erase id j s.threads));
}
