-- ===== src/Registry/Invariant.antt =====
-- What holds of the registry's maps and of its queue of expirations, and the parts of it that the
-- lemmas below it use.
use taskcage.Prelude.{
  ◌≤◌, String, ◌≡◌, sym, ◌∙◌, Bool, true, false, none, some, List, [], ◌∷◌, ◌++◌, arith, length,
}
use taskcage.Prelude.Map
use taskcage.Core.Task.{TaskSnapshot, task_id as id_of}
use taskcage.Registry.Types.{RegistryState, TaskRecord, RequestRecord, FinishedExpiration}

abbrev pub is_finished : TaskSnapshot → Bool
is_finished (TaskSnapshot.running _ _ _) = false
is_finished (TaskSnapshot.finished _ _ _ _ _ _) = true

-- No entry of the queue is for the task.
abbrev pub Absent : String → List FinishedExpiration → Type 0
Absent t [] = Unit {0}
Absent t (e ∷ es) = ¬ (e.task_id ≡ t) × Absent t es

-- The entry's task is stored, and finished at the entry's time.
abbrev pub Entered : FinishedExpiration → Map.Map TaskRecord → Type 0
Entered e tasks =
    (r : TaskRecord) × (Map.lookup e.task_id tasks ≡ some r)
    × (r.finished_monotonic ≡ some e.finished_monotonic)

-- The queue has one entry for a task at most, and each is of a finished task.
abbrev pub Queued : List FinishedExpiration → Map.Map TaskRecord → Type 0
Queued [] tasks = Unit {0}
Queued (e ∷ es) tasks = Entered e tasks × Absent e.task_id es × Queued es tasks

-- A task's record holds that task's snapshot, and a time exactly when that is a FINISHED one.
abbrev pub Shaped : String → TaskRecord → Type 0
Shaped t r = (id_of r.snapshot ≡ t) × (Map.is_some r.finished_monotonic ≡ is_finished r.snapshot)

-- The two indexes are inverse to each other, each task has a reservation, and the reservations are
-- not more than the registry may hold.
pub record Inv (s : RegistryState) : Type 0 where
  pub forward :
      (k : String) (q : RequestRecord)
      → Map.lookup k s.requests ≡ some q
      → Map.lookup q.task_id s.task_requests ≡ some k
  pub backward :
      (t k : String)
      → Map.lookup t s.task_requests ≡ some k
      → (q : RequestRecord) × (Map.lookup k s.requests ≡ some q) × (q.task_id ≡ t)
  pub known :
      (t : String) (r : TaskRecord)
      → Map.lookup t s.tasks ≡ some r
      → (k : String) × (Map.lookup t s.task_requests ≡ some k)
  pub shaped : (t : String) (r : TaskRecord) → Map.lookup t s.tasks ≡ some r → Shaped t r
  pub queued : Queued s.finished_expirations s.tasks
  pub bounded : length s.requests ≤ s.max_tasks

-- Changes to the tasks that the queue does not see.
pub Queued-frame :
    (es : List FinishedExpiration) (t : String) (before after : Map.Map TaskRecord)
    → Absent t es
    → ((j : String) → ¬ (j ≡ t) → Map.lookup j after ≡ Map.lookup j before)
    → Queued es before
    → Queued es after
Queued-frame [] t before after a same q = tt
Queued-frame (e ∷ es) t before after a same q =
    ((q.0.0, same e.task_id a.0 ∙ q.0.1, q.0.2), q.1, Queued-frame es t before after a.1 same q.2)

-- A task that is not stored, or not finished, has no entry.
pub Absent-unfinished :
    (es : List FinishedExpiration) (t : String) (tasks : Map.Map TaskRecord)
    → ((r : TaskRecord) → Map.lookup t tasks ≡ some r → r.finished_monotonic ≡ none)
    → Queued es tasks
    → Absent t es
Absent-unfinished [] t tasks h q = tt
Absent-unfinished (e ∷ es) t tasks h q = (differs, Absent-unfinished es t tasks h q.2)
  where
    differs : ¬ (e.task_id ≡ t)
    differs p = ground (arith, q.0.1, q.0.2, p, h q.0.0)

pub Queued-append :
    (es : List FinishedExpiration) (e : FinishedExpiration) (tasks : Map.Map TaskRecord)
    → Absent e.task_id es
    → Entered e tasks
    → Queued es tasks
    → Queued (es ++ (e ∷ [])) tasks
Queued-append [] e tasks a r q = (r, tt, tt)
Queued-append (d ∷ es) e tasks a r q =
    (q.0, Absent-append es q.1 (λ p. a.0 (sym p)), Queued-append es e tasks a.1 r q.2)
  where
    Absent-append :
        (fs : List FinishedExpiration)
        → Absent d.task_id fs
        → ¬ (e.task_id ≡ d.task_id)
        → Absent d.task_id (fs ++ (e ∷ []))
    Absent-append [] h n = (n, tt)
    Absent-append (f ∷ fs) h n = (h.0, Absent-append fs h.1 n)
