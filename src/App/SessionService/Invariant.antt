-- ===== src/App/SessionService/Invariant.antt =====
-- What holds of every session between any two steps, whatever the interleaving.
use gr4_control_plane.Prelude.{
  ℕ, suc, String, ◌≡◌, refl, sym, ap, ◌∙◌, ◌==◌, string_eq, if◌then◌else◌, Option, none, some, List,
  [], ◌∷◌, ◌++◌, ◌⊎◌, ◌≢◌, arith, inl, inr, Option-cases, subst, All, All-middle, All-drop_middle,
}
use gr4_control_plane.Prelude.Dict
use gr4_control_plane.Prelude.Dict.{lookup-insert, lookup-erase, lookup-nil}
use gr4_control_plane.Errors.{Result}
use gr4_control_plane.Domain.Session.{Session, SessionState}
use gr4_control_plane.Storage
use gr4_control_plane.Storage.Laws.{get-create, get-nil}
use gr4_control_plane.App.SessionService.{
  Service, InternalLifecyclePhase, idle, starting, running, stopping, failed,
  record_runtime_failure,
}
use gr4_control_plane.App.SessionService.Sections.{
  begin_start, begin_stop, begin_restart, begin_remove, finish_remove, create, fresh_id,
  new_session,
}
use gr4_control_plane.App.SessionService.Stores.{
  Puts, finish_running-Puts, finish_stop-Puts, record_runtime_failure-Puts, finish_remove-gone,
}
use gr4_control_plane.App.SessionService.Interleaving.{
  Transition, starts, stops, restarts, removes, Task, System, begin, finish, Step, creates, begins,
  completes, fails, Reachable, initially, after, tasks_on,
}

-- A phase, with the session's state and the number of tasks on the session.
abbrev pub Fits : InternalLifecyclePhase → SessionState → ℕ → Type 0
Fits idle st n = (st ≡ SessionState.stopped) × (n ≡ 0)
Fits running st n = (st ≡ SessionState.running) × (n ≡ 0)
Fits failed st n = (st ≡ SessionState.error) × (n ≡ 0)
Fits starting st n = n ≡ 1
Fits stopping st n = n ≡ 1

abbrev pub Sound : String → Option Session → Option InternalLifecyclePhase → ℕ → Type 0
Sound j none none n = n ≡ 0
Sound j none (some p) n = ⊥
Sound j (some s) none n = ⊥
Sound j (some s) (some p) n = (s.id ≡ j) × Fits p s.state n

abbrev pub SoundAt : String → System → Type 0
SoundAt j u =
    Sound j (Storage.get j u.service.repository) (Dict.lookup j u.service.phases)
      (tasks_on j u.tasks)

begin-SoundAt :
    (t : Transition) (id j : String) (u : System)
    → SoundAt id u
    → SoundAt j u
    → SoundAt j (begin t id u)
unfolding begin begin_start begin_stop begin_restart begin_remove
begin-SoundAt starts id j u h k = ground (arith, lookup-insert j id starting u.service.phases)
begin-SoundAt stops id j u h k = ground (arith, lookup-insert j id stopping u.service.phases)
begin-SoundAt restarts id j u h k = ground (arith, lookup-insert j id starting u.service.phases)
begin-SoundAt removes id j u h k = ground (arith, lookup-insert j id stopping u.service.phases)

-- The task that leaves is one of its session's tasks, and no other's.
tasks_on-leave :
    (j : String) (earlier later : List Task) (t : Task)
    → tasks_on j (earlier ++ (t ∷ later))
      ≡ (if t.id == j then suc (tasks_on j (earlier ++ later)) else tasks_on j (earlier ++ later))
tasks_on-leave j [] later t = refl
tasks_on-leave j (x ∷ earlier) later t = ground (arith, tasks_on-leave j earlier later t)

-- A session with a task is there, in a phase that lets no other task begin.
Sound-Busy :
    (id : String) (o : Option Session) (p : Option InternalLifecyclePhase) (n : ℕ)
    → Sound id o p (suc n)
    → (s : Session) × (o ≡ some s)
      × (s.id ≡ id)
      × ((p ≡ some starting) ⊎ (p ≡ some stopping))
      × (n ≡ 0)
Sound-Busy id none none n h = absurd (omega arith)
Sound-Busy id none (some p) n h = absurd h
Sound-Busy id (some s) none n h = absurd h
Sound-Busy id (some s) (some idle) n h = absurd (omega (arith, h.1.1))
Sound-Busy id (some s) (some running) n h = absurd (omega (arith, h.1.1))
Sound-Busy id (some s) (some failed) n h = absurd (omega (arith, h.1.1))
Sound-Busy id (some s) (some starting) n h = (s, refl, h.0, inl refl, omega arith)
Sound-Busy id (some s) (some stopping) n h = (s, refl, h.0, inr refl, omega arith)

-- A session that is put, with a settled phase, while its last task leaves.
Puts-Sound :
    {id : String} {s : Session} {p : InternalLifecyclePhase} {before later : Service}
    → Puts id s p before later
    → s.id ≡ id
    → Fits p s.state 0
    → (j : String) (n n' : ℕ)
    → Sound j (Storage.get j before.repository) (Dict.lookup j before.phases) n
    → (id ≡ j → n' ≡ 0)
    → (id ≢ j → n' ≡ n)
    → Sound j (Storage.get j later.repository) (Dict.lookup j later.phases) n'
Puts-Sound {id} {s} {p} {before} {later} put keyed fits j n n' h last other =
    elim (string_eq.dec j id) [
      | yes e ↦
          let there : Storage.get j later.repository ≡ some s = ground (arith, put.session_at j) in
          let settled : Dict.lookup j later.phases ≡ some p = ground (arith, put.phase_at j) in
          rw (there, settled, last (sym e)) (keyed ∙ sym e, fits)
      | no e ↦
          let same : Storage.get j later.repository ≡ Storage.get j before.repository =
            ground (arith, put.session_at j) in
          let kept : Dict.lookup j later.phases ≡ Dict.lookup j before.phases =
            ground (arith, put.phase_at j) in
          rw (same, kept, other (λ q. e (sym q))) h
    ]

-- The invariant: every session is sound, and every task has its own session's copy.
pub record Inv (u : System) : Type 0 where
  pub sound : (j : String) → SoundAt j u
  pub own : All (λ t. t.session.id ≡ t.id) u.tasks

-- A task that is in the system keeps its session in place, busy for all others.
module _ (u : System) (h : Inv u) (earlier later : List Task) (t : Task)
    (here : u.tasks ≡ earlier ++ (t ∷ later)) where
  leaving :
      (j : String)
      → tasks_on j u.tasks
        ≡ (if t.id == j then suc (tasks_on j (earlier ++ later)) else tasks_on j (earlier ++ later))
  leaving j = ap (tasks_on j) here ∙ tasks_on-leave j earlier later t

  at_task :
      Sound t.id
        (Storage.get t.id u.service.repository)
        (Dict.lookup t.id u.service.phases)
        (suc (tasks_on t.id (earlier ++ later)))
  at_task =
      let e : tasks_on t.id u.tasks ≡ suc (tasks_on t.id (earlier ++ later)) =
        ground (arith, leaving t.id) in
      rw e at (h.sound t.id)

  pub busy :
      (s : Session) × (Storage.get t.id u.service.repository ≡ some s)
      × (s.id ≡ t.id)
      × ((Dict.lookup t.id u.service.phases ≡ some starting)
          ⊎ (Dict.lookup t.id u.service.phases ≡ some stopping))
      × (tasks_on t.id (earlier ++ later) ≡ 0)
  busy = Sound-Busy t.id _ _ _ at_task

  last_leaves : (j : String) → t.id ≡ j → tasks_on j (earlier ++ later) ≡ 0
  last_leaves j e = subst (λ k. tasks_on k (earlier ++ later) ≡ 0) e busy.4

  others_stay : (j : String) → t.id ≢ j → tasks_on j (earlier ++ later) ≡ tasks_on j u.tasks
  others_stay j n = ground (arith, leaving j)

  pub own_id : t.session.id ≡ t.id
  own_id =
      All-middle (λ x. x.session.id ≡ x.id) earlier later t
        (subst (All (λ x. x.session.id ≡ x.id)) here h.own)

  finish-SoundAt :
      (k : Transition) (now : ℕ) (j : String)
      → SoundAt j (record { service = (finish k t.id now u.service).1; tasks = earlier ++ later })
  unfolding finish
  finish-SoundAt starts now j =
      Puts-Sound (finish_running-Puts t.id now u.service busy.0 busy.1 busy.2) busy.2 (refl, refl) j
        _ _ (h.sound j) (last_leaves j) (others_stay j)
  finish-SoundAt stops now j =
      Puts-Sound (finish_stop-Puts t.id now u.service busy.0 busy.1 busy.2) busy.2 (refl, refl) j _
        _ (h.sound j) (last_leaves j) (others_stay j)
  finish-SoundAt restarts now j =
      Puts-Sound (finish_running-Puts t.id now u.service busy.0 busy.1 busy.2) busy.2 (refl, refl) j
        _ _ (h.sound j) (last_leaves j) (others_stay j)
  finish-SoundAt removes now j = elim (string_eq.dec j t.id) [
    | yes e ↦
        let gone : Storage.get j (finish_remove t.id u.service).1.repository ≡ none =
          ground (arith, finish_remove-gone t.id u.service busy.0 busy.1 j) in
        let cleared : Dict.lookup j (finish_remove t.id u.service).1.phases ≡ none =
          ground (arith, finish_remove-gone t.id u.service busy.0 busy.1 j) in
        rw (gone, cleared) (last_leaves j (sym e))
    | no e ↦
        let same : Storage.get j (finish_remove t.id u.service).1.repository
            ≡ Storage.get j u.service.repository =
          ground (arith, finish_remove-gone t.id u.service busy.0 busy.1 j) in
        let kept : Dict.lookup j (finish_remove t.id u.service).1.phases
            ≡ Dict.lookup j u.service.phases =
          ground (arith, finish_remove-gone t.id u.service busy.0 busy.1 j) in
        rw (same, kept, others_stay j (λ q. e (sym q))) (h.sound j)
  ]

  failure-SoundAt :
      (message : String) (now : ℕ) (j : String)
      → SoundAt j (record {
        service = (record_runtime_failure t.session message now u.service).1;
        tasks = earlier ++ later;
      })
  failure-SoundAt message now j =
      Puts-Sound
        (record_runtime_failure-Puts t.id now u.service busy.0 busy.1 busy.2 t.session message
          own_id)
        busy.2 (refl, refl) j _ _ (h.sound j) (last_leaves j) (others_stay j)

  others_own : All (λ x. x.session.id ≡ x.id) (earlier ++ later)
  others_own =
      All-drop_middle (λ x. x.session.id ≡ x.id) earlier later t
        (subst (All (λ x. x.session.id ≡ x.id)) here h.own)

pub fresh_id-absent :
    (draws : List String) (r : Storage.Repository) (id : String)
    → fresh_id draws r ≡ some id
    → Storage.get id r ≡ none
unfolding fresh_id
fresh_id-absent [] r id e = cc
fresh_id-absent (d ∷ draws) r id e = ground (arith, fresh_id-absent draws r id)

create-SoundAt :
    (name grc : String) (scheduler_alias : Option String) (draws : List String) (now : ℕ)
    (u : System) (r : Result Session × Service) (j : String)
    → create name grc scheduler_alias draws now u.service ≡ some r
    → ((k : String) → SoundAt k u)
    → SoundAt j (record u { service = r.1 })
unfolding create
create-SoundAt name grc a draws now u r j e h =
    elim (Option-cases (fresh_id draws u.service.repository)) [
      | inl n ↦ ground (arith, h j)
      | inr (id, q) ↦ ground (
        arith,
        h id,
        h j,
        fresh_id-absent draws u.service.repository id q,
        get-create (new_session id name grc a now) u.service.repository j,
        lookup-insert j id idle u.service.phases,
      )
    ]

begin-own :
    (t : Transition) (id : String) (u : System)
    → Inv u
    → All (λ x. x.session.id ≡ x.id) (begin t id u).tasks
unfolding begin begin_start begin_stop begin_restart begin_remove
begin-own starts id u h = ground (arith, h.sound id, h.own)
begin-own stops id u h = ground (arith, h.sound id, h.own)
begin-own restarts id u h = ground (arith, h.sound id, h.own)
begin-own removes id u h = ground (arith, h.sound id, h.own)

pub Step-Inv : {u v : System} → Step u v → Inv u → Inv v
Step-Inv {u} (creates name grc a draws now r e) h = record {
  sound = λ j. create-SoundAt name grc a draws now u r j e h.sound;
  own = h.own;
}
Step-Inv {u} (begins t id) h = record {
  sound = λ j. begin-SoundAt t id j u (h.sound id) (h.sound j);
  own = begin-own t id u h;
}
Step-Inv {u} (completes earlier later t now e) h = record {
  sound = finish-SoundAt u h earlier later t e t.transition now;
  own = others_own u h earlier later t e;
}
Step-Inv {u} (fails earlier later t message now e) h = record {
  sound = failure-SoundAt u h earlier later t e message now;
  own = others_own u h earlier later t e;
}

-- The invariant holds in every system that the steps reach from the empty one.
pub Reachable-Inv : {u : System} → Reachable u → Inv u
Reachable-Inv initially = record { sound = λ j. rw (get-nil j, lookup-nil j) refl; own = tt }
Reachable-Inv (after r s) = Step-Inv s (Reachable-Inv r)
