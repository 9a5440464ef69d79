-- ===== src/Tasks/Assignment.antt =====
-- task_store.rs, `assign_pending_task`: which task a node is given, and what becomes of the queue.
use hyverk_distributed_llm.Common.{
  ℕ, String, Bool, true, false, not, ◌≡◌, refl, ap, sym, none, some, ◌⊎◌, inl, inr, List, [], ◌∷◌,
  ◌++◌, append-nil, append_assoc, arith, length, all, filter, subst,
}
use hyverk_distributed_llm.Common.HashMap
use hyverk_distributed_llm.Common.HashMap.{HashMap, get-modify}
use hyverk_distributed_llm.Tasks.{
  TaskStore, TaskInfo, Verdict, stale, elsewhere, take, judge, assign_to, to_inference, assign_loop,
  assign_pending_task,
}

abbrev pub is_elsewhere : Verdict → Bool
is_elsewhere stale = false
is_elsewhere elsewhere = true
is_elsewhere (take t) = false

abbrev pub is_take : Verdict → Bool
is_take stale = false
is_take elsewhere = false
is_take (take t) = true

module _ (node_id : String) (models : List String) (now : ℕ) (tasks : HashMap TaskInfo) where
  -- No id of the list is that of a pending task for the node.
  abbrev pub NoneFor : List String → Type 0
  NoneFor = λ ids. all (λ i. not (is_take (judge models tasks i))) ids ≡ true

  -- The ids of the list whose tasks are pending, for other nodes.
  abbrev pub waiting : List String → List String
  waiting = filter (λ i. is_elsewhere (judge models tasks i))

  loop-none :
      (todo done : List String)
      → NoneFor todo
      → assign_loop
          (length todo)
          node_id
          models
          now
          (record { tasks = tasks; pending_queue = todo ++ done })
        ≡ (record { tasks = tasks; pending_queue = done ++ waiting todo }, none)
  unfolding assign_loop all filter
  loop-none [] done h = rw (append-nil done)
  loop-none (i ∷ todo) done h = ground (
    arith,
    append_assoc todo done (i ∷ []),
    append_assoc done (i ∷ []) (waiting todo),
    loop-none todo done,
    loop-none todo (done ++ i ∷ []),
  )

  loop-some :
      (before after done : List String) (i : String) (t : TaskInfo)
      → NoneFor before
      → judge models tasks i ≡ take t
      → assign_loop
          (length (before ++ i ∷ after))
          node_id
          models
          now
          (record { tasks = tasks; pending_queue = (before ++ i ∷ after) ++ done })
        ≡ (
          record {
            tasks = HashMap.modify i (assign_to node_id now) tasks;
            pending_queue = after ++ (done ++ waiting before);
          },
          some (to_inference t),
        )
  unfolding assign_loop all filter
  loop-some [] after done i t h e = rw (e, assign_loop, append-nil done)
  loop-some (j ∷ before) after done i t h e = ground (
    arith,
    append_assoc (before ++ i ∷ after) done (j ∷ []),
    append_assoc done (j ∷ []) (waiting before),
    loop-some before after done i t,
    loop-some before after (done ++ j ∷ []) i t,
  )

-- If no queued task is pending for one of the node's models, none is assigned, the tasks stay as
-- they are, and the queue keeps, in their order, just the ids whose tasks are still pending.
pub assign_pending_task-none :
    (s : TaskStore) (node_id : String) (models : List String) (now : ℕ)
    → NoneFor node_id models now s.tasks s.pending_queue
    → assign_pending_task s node_id models now
      ≡ (record s { pending_queue = waiting node_id models now s.tasks s.pending_queue }, none)
unfolding assign_pending_task
assign_pending_task-none s node_id models now h =
    subst
      (λ q.
        assign_loop (length s.pending_queue) node_id models now (record s { pending_queue = q })
        ≡ (record s { pending_queue = waiting node_id models now s.tasks s.pending_queue }, none))
      (append-nil s.pending_queue) (loop-none node_id models now s.tasks s.pending_queue [] h)

-- Otherwise the first such task of the queue is assigned to the node. Its id leaves the queue, the
-- pending ids that were passed over go behind the rest, and no other task changes.
pub assign_pending_task-some :
    (s : TaskStore) (node_id : String) (models : List String) (now : ℕ) (before after : List String)
    (i : String) (t : TaskInfo)
    → s.pending_queue ≡ before ++ i ∷ after
    → NoneFor node_id models now s.tasks before
    → judge models s.tasks i ≡ take t
    → assign_pending_task s node_id models now ≡ (
      record {
        tasks = HashMap.modify i (assign_to node_id now) s.tasks;
        pending_queue = after ++ waiting node_id models now s.tasks before;
      },
      some (to_inference t),
    )
unfolding assign_pending_task
assign_pending_task-some s node_id models now before after i t q h e =
    subst
      (λ r. assign_loop (length r) node_id models now (record s { pending_queue = r }) ≡ (
        record {
          tasks = HashMap.modify i (assign_to node_id now) s.tasks;
          pending_queue = after ++ waiting node_id models now s.tasks before;
        },
        some (to_inference t),
      ))
      (sym q)
      (subst
        (λ r.
          assign_loop (length (before ++ i ∷ after)) node_id models now
            (record s { pending_queue = r })
          ≡ (
            record {
              tasks = HashMap.modify i (assign_to node_id now) s.tasks;
              pending_queue = after ++ waiting node_id models now s.tasks before;
            },
            some (to_inference t),
          ))
        (append-nil (before ++ i ∷ after))
        (loop-some node_id models now s.tasks before after [] i t h e))

Verdict-cases : (v : Verdict) → (is_take v ≡ false) ⊎ ((t : TaskInfo) × (v ≡ take t))
Verdict-cases stale = inl refl
Verdict-cases elsewhere = inl refl
Verdict-cases (take t) = inr (t, refl)

-- Every queue is one of the two.
pub queue_cases :
    (node_id : String) (models : List String) (now : ℕ) (tasks : HashMap TaskInfo) (q : List String)
    → NoneFor node_id models now tasks q
      ⊎ ((before : List String) × (i : String) × (after : List String) × (t : TaskInfo) × (q
            ≡ before ++ i ∷ after)
          × NoneFor node_id models now tasks before
          × (judge models tasks i ≡ take t))
unfolding all
queue_cases node_id models now tasks [] = inl refl
queue_cases node_id models now tasks (j ∷ q) = elim (Verdict-cases (judge models tasks j)) [
  | inl e ↦ elim (queue_cases node_id models now tasks q) [
    | inl h ↦ inl (ground arith)
    | inr (before, i, after, t, s, h, k) ↦
        inr (j ∷ before, i, after, t, ap (◌∷◌ j) s, ground arith, k)
  ]
  | inr (t, e) ↦ inr ([], j, q, t, refl, refl, e)
]
