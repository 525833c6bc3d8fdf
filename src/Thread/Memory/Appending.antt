-- ===== src/Thread/Memory/Appending.antt =====
-- `Append` of thread/memorystore.go: a batch is logged whole or not at all.
use agentsdk.Prelude.{
  ℕ, suc, String, Bool, true, false, none, some, List, [], ◌∷◌, ◌++◌, map, ◌==◌, eq_iff, ◌≡◌, ◌≢◌,
  refl, ap, sym, ◌∙◌, arith, ◌⊎◌, inl, inr, Bool-cases, Option-cases,
}
use mathlib.Core.List.{append_assoc, append-nil}
use agentsdk.Prelude.Dict.{lookup, lookup-insert}
use agentsdk.Prelude.Result.{Result-cases, ok}
use agentsdk.Thread.{Event, Payload, ThreadError}
use agentsdk.Thread.Memory.{
  MemoryThread, Store, Live, validate_event, stamped, take_event, append_locked, prepared, batch,
  append,
}

-- What an event says, without the marks that the store puts on it.
pub record Content : Type 0 where
  pub kind : String
  pub payload : Payload
  pub node_id : String
  pub parent_node_id : String
  pub causation_id : String
  pub correlation_id : String

abbrev pub content : Event → Content
content e = record {
  kind = e.kind;
  payload = e.payload;
  node_id = e.node_id;
  parent_node_id = e.parent_node_id;
  causation_id = e.causation_id;
  correlation_id = e.correlation_id;
}

-- The batch has the events' contents, in their order, and none without a kind or refused by the registry.
batch-content :
    (s : Store) (l : Live) (events es : List Event)
    → batch s l events ≡ ok es
    → map content es ≡ map content events
unfolding batch
batch-content s l [] es h = ground arith
batch-content s l (e ∷ events) es h = elim (Bool-cases (e.kind == "")) [
  | inl empty ↦ absurd (ground (arith, h, empty))
  | inr named ↦ elim (Option-cases (validate_event s e)) [
    | inr (x, bad) ↦ absurd (ground (arith, h, named, bad))
    | inl good ↦ elim (Result-cases (batch s l events)) [
      | inl (x, bad) ↦ absurd (ground (arith, h, named, good, bad))
      | inr (rest, done) ↦
          let k : (prepared l e ∷ rest) ≡ es = ground (arith, h, named, good, done) in
          sym (ap (map content) k) ∙ ap (λ x. content e ∷ x) (batch-content s l events rest done)
    ]
  ]
]

-- What a batch changes of a thread.
pub record Logged (t u : MemoryThread) (events : List Event) : Type 0 where
  pub id_kept : u.id ≡ t.id
  pub branch_kept : u.branch_id ≡ t.branch_id
  pub branches_kept : u.branches ≡ t.branches
  pub flag_kept : u.archived ≡ t.archived
  pub metadata_kept : u.metadata ≡ t.metadata
  pub added :
      (es : List Event) × (u.events ≡ t.events ++ es) × (map content es ≡ map content events)

append_locked-Logged :
    (hex : ℕ → String) (now i : ℕ) (branch_id : String) (events : List Event) (t : MemoryThread)
    → Logged t (append_locked hex now i branch_id events t) events
unfolding append_locked
append_locked-Logged hex now i branch_id [] t = record {
  id_kept = refl;
  branch_kept = refl;
  branches_kept = refl;
  flag_kept = refl;
  metadata_kept = refl;
  added = ([], sym (append-nil t.events), refl);
}
append_locked-Logged hex now i branch_id (e ∷ events) t =
    let x = stamped (hex i) now t branch_id e in
    let rest = append_locked-Logged hex now (suc i) branch_id events (take_event t x) in
    let (es, split, same) = rest.added in
    record {
      id_kept = rest.id_kept;
      branch_kept = rest.branch_kept;
      branches_kept = rest.branches_kept;
      flag_kept = rest.flag_kept;
      metadata_kept = rest.metadata_kept;
      added = (x ∷ es, split ∙ append_assoc t.events (x ∷ []) es, ap (λ y. content e ∷ y) same);
    }

Logged-content :
    (t u : MemoryThread) (es events : List Event)
    → Logged t u es
    → map content es ≡ map content events
    → Logged t u events
Logged-content t u es events g same = record {
  id_kept = g.id_kept;
  branch_kept = g.branch_kept;
  branches_kept = g.branches_kept;
  flag_kept = g.flag_kept;
  metadata_kept = g.metadata_kept;
  added = (g.added.0, g.added.1, g.added.2 ∙ same);
}

-- `Append` on a thread of the store is all or nothing: with an error the store is as it was, and
-- otherwise the thread has got the contents of all the events, in their order, at the end of its
-- events, with its branches, flag and metadata as they were, and every other thread is as it was.
pub append_atomic :
    (ctx_err : Bool) (hex : ℕ → String) (now : ℕ) (l : Live) (events : List Event) (s : Store)
    (t : MemoryThread)
    → lookup l.thread_id s.threads ≡ some t
    → let o = append ctx_err hex now l events s in
      ((e : ThreadError) × (o.1 ≡ some e) × (o.0 ≡ s))
      ⊎ ((o.1 ≡ none)
          × (u : MemoryThread) × (lookup l.thread_id o.0.threads ≡ some u)
          × Logged t u events
          × ((id : String) → l.thread_id ≢ id → lookup id o.0.threads ≡ lookup id s.threads))
unfolding append append_locked
append_atomic true hex now l [] s t h = inl (_, refl, refl)
append_atomic true hex now l (e ∷ events) s t h = inl (_, refl, refl)
append_atomic false hex now l [] s t h =
    inr (refl, t, h, append_locked-Logged hex now 0 "" [] t, λ id n. refl)
append_atomic false hex now l (e ∷ events) s t h = elim (Bool-cases l.closed) [
  | inl shut ↦ rw shut (inl (_, refl, refl))
  | inr opened ↦ rw opened (
      rw h (elim (Result-cases (batch s l (e ∷ events))) [
        | inl (x, bad) ↦ rw bad (inl (x, refl, refl))
        | inr (es, good) ↦ rw good (
            let u = append_locked hex now 0 l.branch_id es t in
            inr (
              refl,
              u,
              ground (
                arith,
                lookup-insert l.thread_id l.thread_id u s.threads,
                eq_iff l.thread_id l.thread_id,
              ),
              Logged-content t u es (e ∷ events) (append_locked-Logged hex now 0 l.branch_id es t)
                  (batch-content s l (e ∷ events) es good),
              λ id n.
                  ground
                    (arith, n, lookup-insert l.thread_id id u s.threads, eq_iff l.thread_id id),
            ))
      ]))
]
