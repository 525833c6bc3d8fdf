-- ===== src/Thread/Memory/Import/Logs.antt =====
-- What `Import` of thread/memorystore.go makes of a log: the events of each thread, in order.
use agentsdk.Prelude.{
  String, Option, none, some, List, [], ◌∷◌, ◌++◌, ◌==◌, eq_iff, nat_eq, if◌then◌else◌, ◌≡◌, ◌≢◌,
  ◌⊎◌, refl, ap, sym, subst, ◌∙◌, arith, inl, inr, Bool-cases, Option-cases, is_some,
}
use mathlib.Core.List.{append_assoc, append-nil}
use agentsdk.Prelude.Dict.{lookup, insert, lookup-insert}
use agentsdk.Prelude.Result.{Result-cases, ok}
use agentsdk.Thread.{
  Payload, absent, created_payload, branch_payload, other_object, malformed, Event, ThreadError,
  thread_created, branch_created, main_branch, current_schema_version,
}
use agentsdk.Thread.Memory.{MemoryThread, Store, set_thread, validate_event}
use agentsdk.Thread.Memory.Import.{
  with_branch, found_thread, import_created, put_branch, import_payload, import_branch, import_rest,
  versioned, on_branch, import_valid, import_event, import_events,
}

abbrev pub thread_events : Option MemoryThread → List Event
thread_events none = []
thread_events (some t) = t.events

abbrev pub events_of : String → Store → List Event
events_of id s = thread_events (lookup id s.threads)

-- The log's events of one thread.
abbrev pub own_events : String → List Event → List Event
own_events id [] = []
own_events id (e ∷ events) =
    let rest = own_events id events in if e.thread_id == id then e ∷ rest else rest

-- What the store keeps of an event of a log.
pub record IsStoredAs (e f : Event) : Type 0 where
  pub ids : (f.id ≡ e.id) × (f.thread_id ≡ e.thread_id)
  pub nodes : (f.node_id ≡ e.node_id) × (f.parent_node_id ≡ e.parent_node_id)
  pub place : (f.seq ≡ e.seq) × (f.at ≡ e.at)
  pub message : (f.kind ≡ e.kind) × (f.payload ≡ e.payload)
  pub origin :
      (f.source ≡ e.source)
      × (f.causation_id ≡ e.causation_id)
      × (f.correlation_id ≡ e.correlation_id)
  pub branch :
      ((e.branch_id ≡ "") × (f.branch_id ≡ main_branch))
      ⊎ ((e.branch_id ≢ "") × (f.branch_id ≡ e.branch_id))
  pub version :
      ((e.schema_version ≡ 0) × (f.schema_version ≡ current_schema_version))
      ⊎ ((e.schema_version ≢ 0) × (f.schema_version ≡ e.schema_version))

-- The second list holds what the store keeps of each event of the first, in order.
abbrev pub AreStoredAs : List Event → List Event → Type 0
AreStoredAs [] [] = Unit
AreStoredAs [] (f ∷ fs) = ⊥
AreStoredAs (e ∷ es) [] = ⊥
AreStoredAs (e ∷ es) (f ∷ fs) = IsStoredAs e f × AreStoredAs es fs

stored-IsStoredAs : (e : Event) → IsStoredAs e (on_branch (versioned e))
stored-IsStoredAs e = record {
  ids = (refl, refl);
  nodes = (refl, refl);
  place = (refl, refl);
  message = (refl, refl);
  origin = (refl, refl, refl);
  branch = elim (Bool-cases (e.branch_id == "")) [
    | inl empty ↦ inl (ground (arith, empty, eq_iff e.branch_id ""), ground (arith, empty))
    | inr named ↦ inr (ground (arith, named, eq_iff e.branch_id ""), ground (arith, named))
  ];
  version = elim (Bool-cases (nat_eq e.schema_version 0)) [
    | inl unset ↦ inl (ground (arith, unset), ground (arith, unset))
    | inr set ↦ inr (ground (arith, set), ground (arith, set))
  ];
}

found_events : (s : Store) (e : Event) → (found_thread s e).events ≡ events_of e.thread_id s
found_events s e = elim (Option-cases (lookup e.thread_id s.threads)) [
  | inl missing ↦ rw (missing, found_thread) refl
  | inr (t, there) ↦ rw (there, found_thread) refl
]

with_branch-events : (t : MemoryThread) (e : Event) → (with_branch t e).events ≡ t.events
with_branch-events t e = elim (Bool-cases (is_some (lookup e.branch_id t.branches))) [
  | inl there ↦ rw there refl
  | inr missing ↦ rw missing refl
]

import_created-events : (t : MemoryThread) (e : Event) → (import_created t e).events ≡ t.events
import_created-events t e = elim (Bool-cases (e.kind == thread_created)) [
  | inl first ↦ rw first refl
  | inr later ↦ rw later refl
]

import_payload-events :
    (t u : MemoryThread) (e : Event) (p : Payload)
    → import_payload t e p ≡ ok u
    → u.events ≡ t.events
import_payload-events t u e absent h = absurd (cc)
import_payload-events t u e (malformed raw) h = absurd (cc)
import_payload-events t u e (branch_payload from to n) h =
    let k : put_branch t e from to n ≡ u = ground (arith, h) in
    sym (ap (λ (x : MemoryThread). x.events) k)
import_payload-events t u e (created_payload m) h =
    let k : put_branch t e "" "" 0 ≡ u = ground (arith, h) in
    sym (ap (λ (x : MemoryThread). x.events) k)
import_payload-events t u e (other_object raw) h =
    let k : put_branch t e "" "" 0 ≡ u = ground (arith, h) in
    sym (ap (λ (x : MemoryThread). x.events) k)

import_branch-events :
    (t u : MemoryThread) (e : Event) → import_branch t e ≡ ok u → u.events ≡ t.events
import_branch-events t u e h = elim (Bool-cases (e.kind == branch_created)) [
  | inl forks ↦ import_payload-events t u e e.payload (ground (arith, h, forks))
  | inr other ↦
      let k : t ≡ u = ground (arith, h, other) in sym (ap (λ (x : MemoryThread). x.events) k)
]

set_thread-events :
    (s : Store) (key id : String) (r : MemoryThread) (more : List Event)
    → r.events ≡ events_of key s ++ more
    → events_of id (set_thread s key r)
      ≡ (if key == id then events_of id s ++ more else events_of id s)
set_thread-events s key id r more h = elim (Bool-cases (key == id)) [
  | inr other ↦
      let there : lookup id (insert key r s.threads) ≡ lookup id s.threads =
        ground (arith, other, lookup-insert key id r s.threads) in
      rw other (ap thread_events there)
  | inl same ↦
      let e : key ≡ id = ground (arith, same, eq_iff key id) in
      let there : lookup id (insert key r s.threads) ≡ some r =
        ground (arith, same, lookup-insert key id r s.threads) in
      rw same (ap thread_events there ∙ (h ∙ ap (λ k. events_of k s ++ more) e))
]

import_valid-events :
    (e : Event) (s u : Store) (id : String)
    → import_valid e s ≡ (u, none)
    → events_of id u ≡ (if e.thread_id == id then events_of id s ++ e ∷ [] else events_of id s)
unfolding import_valid
import_valid-events e s u id h =
    let t = import_created (with_branch (found_thread s e) e) e in
    elim (Result-cases (import_branch t e)) [
      | inl (x, bad) ↦ absurd (ground (arith, h, bad))
      | inr (t', good) ↦
          let r = import_rest t' e in
          let k : set_thread s e.thread_id r ≡ u = ground (arith, h, good) in
          let grown : r.events ≡ events_of e.thread_id s ++ e ∷ [] =
            ap (λ l. l ++ e ∷ [])
              (import_branch-events t t' e good
                ∙ (import_created-events (with_branch (found_thread s e) e) e
                    ∙ (with_branch-events (found_thread s e) e ∙ found_events s e))) in
          subst
            (λ x.
              events_of id x
              ≡ (if e.thread_id == id then events_of id s ++ e ∷ [] else events_of id s))
            k (set_thread-events s e.thread_id id r (e ∷ []) grown)
    ]

import_event-events :
    (e : Event) (s u : Store) (id : String)
    → import_event e s ≡ (u, none)
    → events_of id u ≡ (
        if e.thread_id == id
        then events_of id s ++ on_branch (versioned e) ∷ []
        else events_of id s)
unfolding import_event
import_event-events e s u id h = elim (Bool-cases (e.thread_id == "")) [
  | inl nameless ↦ absurd (ground (arith, h, nameless))
  | inr named ↦ elim (Bool-cases (e.kind == "")) [
    | inl kindless ↦ absurd (ground (arith, h, named, kindless))
    | inr kind ↦ elim (Option-cases (validate_event s (versioned e))) [
      | inr (x, bad) ↦ absurd (ground (arith, h, named, kind, bad))
      | inl good ↦
          import_valid-events (on_branch (versioned e)) s u id
            (ground (arith, h, named, kind, good))
    ]
  ]
]

-- An import that succeeds adds to every thread, new ones included, the log's events of that thread,
-- in the log's order and after those that it had, and changes no event but for an empty branch,
-- which becomes the main one, and an empty schema version, which becomes the current one.
pub import_events-events :
    (events : List Event) (s u : Store) (id : String)
    → import_events events s ≡ (u, none)
    → (added : List Event) × (events_of id u ≡ events_of id s ++ added)
      × AreStoredAs (own_events id events) added
unfolding import_events
import_events-events [] s u id h =
    let k : s ≡ u = ground (arith, h) in
    ([], ap (events_of id) (sym k) ∙ sym (append-nil (events_of id s)), tt)
import_events-events (e ∷ events) s u id h = elim (Option-cases (import_event e s).1) [
  | inr (x, bad) ↦ absurd (ground (arith, h, bad))
  | inl good ↦
      let s' = (import_event e s).0 in
      let first : import_event e s ≡ (s', none) = ap (λ (x : Option ThreadError). (s', x)) good in
      let step = import_event-events e s s' id first in
      let (added, rest, all) = import_events-events events s' u id (ground (arith, h, good)) in
      elim (Bool-cases (e.thread_id == id)) [
        | inr other ↦ (added, rest ∙ ap (λ l. l ++ added) (rw other at step), rw other all)
        | inl same ↦ (
          on_branch (versioned e) ∷ added,
          rest
              ∙ (ap (λ l. l ++ added) (rw same at step)
                  ∙ append_assoc (events_of id s) (on_branch (versioned e) ∷ []) added),
          rw same (stored-IsStoredAs e, all),
        )
      ]
]
