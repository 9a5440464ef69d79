-- ===== src/Grpc/Polling.antt =====
-- router.rs and grpc_server.rs: what a registered node gets by polling and by submitting.
use mathlib.Core.Option
use hyverk_distributed_llm.Common.{
  ℕ, String, true, false, ◌≡◌, refl, ap, sym, subst, eq_refl, none, some, inl, inr, arith, contains,
  is_some, Option, ◌&&◌, Option-cases, if◌then◌else◌, str_eq, Bool-cases,
}
use hyverk_distributed_llm.Registry
use hyverk_distributed_llm.Registry.{NodeInfo}
use hyverk_distributed_llm.Tasks.{
  TaskInfo, TaskStatus, assigned, completed, failed, is_pending, get_task, assign_pending_task,
}
use hyverk_distributed_llm.Tasks.Runs.{
  Reach, assign_pending_task_exclusive, assign_pending_task_finds, complete_task_lem, fail_task_lem,
}
use hyverk_distributed_llm.Grpc.{
  InferenceTask, Service, ok, err, not_found, PollTaskResponse, SubmitResultRequest,
  assign_task_for_node, to_response, poll_task, submit_result,
}

-- What a poll without a task means: the node is not registered, and nothing has changed, or no task is
-- pending for one of its models.
abbrev pub IsNoTask : Service → Service → Option NodeInfo → Type 0
IsNoTask s s' none = s' ≡ s
IsNoTask s s' (some node) =
    (k : String) (t : TaskInfo)
    → get_task s.task_store k ≡ some t
    → is_pending t.status && contains node.capabilities.available_models t.model ≡ false

-- And what one with a task means.
abbrev pub IsReply : Service → String → ℕ → Option InferenceTask → Type 0
IsReply s node_id now none =
    IsNoTask s (poll_task s node_id now).0 (Registry.get_node s.registry node_id)
IsReply s node_id now (some given) =
    (node : NodeInfo) × (t : TaskInfo) × (Registry.get_node s.registry node_id ≡ some node)
    × (get_task s.task_store given.task_id ≡ some t)
    × (given.prompt ≡ t.prompt)
    × (given.model ≡ t.model)
    × (is_pending t.status ≡ true)
    × (contains node.capabilities.available_models t.model ≡ true)
    × (get_task (poll_task s node_id now).0.task_store given.task_id
        ≡ some (record t { status = assigned node_id now }))

no_task :
    (s : Service) (node_id : String) (now : ℕ)
    → Reach s.task_store
    → (assign_task_for_node s.registry s.task_store node_id now).1 ≡ none
    → IsReply s node_id now none
unfolding poll_task assign_task_for_node
no_task s node_id now r e = elim (Option-cases (Registry.get_node s.registry node_id)) [
  | inl f ↦ subst (IsNoTask s (poll_task s node_id now).0) (sym f) (ground (arith, f))
  | inr (node, f) ↦
      let models = node.capabilities.available_models in
      subst (IsNoTask s (poll_task s node_id now).0) (sym f) (λ k t g.
        ground (arith, e, f, assign_pending_task_finds s.task_store node_id models now k t r g))
]

sent_task :
    (s : Service) (node_id : String) (now : ℕ) (given : InferenceTask)
    → Reach s.task_store
    → (assign_task_for_node s.registry s.task_store node_id now).1 ≡ some given
    → IsReply s node_id now (some given)
unfolding poll_task assign_task_for_node
sent_task s node_id now given r e = elim (Option-cases (Registry.get_node s.registry node_id)) [
  | inl f ↦ absurd (ground arith)
  | inr (node, f) ↦
      let models = node.capabilities.available_models in
      let given_here : (assign_pending_task s.task_store node_id models now).1 ≡ some given =
        ground (arith, e, f) in
      let (t, same, found, waits, fits, rest) =
        assign_pending_task_exclusive s.task_store node_id models now given r given_here in
      let now_his = rest given.task_id in
      (
        node,
        t,
        f,
        found,
        ap (λ g. g.prompt) same,
        ap (λ g. g.model) same,
        waits,
        fits,
        ground (arith, f, now_his, eq_refl given.task_id),
      )
]

-- The reply to a poll, after any calls: it says that there is a task exactly if it sends one. The task
-- that it sends was pending, for one of the models that the node registered with, and is assigned to
-- that node from then on. If it sends none, then no task was pending for a model of the node, or the
-- node is not registered and nothing has changed.
pub poll_task-IsReply :
    (s : Service) (node_id : String) (now : ℕ)
    → Reach s.task_store
    → (r : PollTaskResponse) × ((poll_task s node_id now).1 ≡ ok r)
      × (r.has_task ≡ is_some r.task)
      × IsReply s node_id now r.task
unfolding poll_task to_response
poll_task-IsReply s node_id now r =
    elim (Option-cases (assign_task_for_node s.registry s.task_store node_id now).1) [
      | inl e ↦ (
        record { has_task = false; task = none },
        ground (arith, e),
        refl,
        no_task s node_id now r e,
      )
      | inr (given, e) ↦ (
        record { has_task = true; task = some given },
        ground (arith, e),
        refl,
        sent_task s node_id now given r e,
      )
    ]

-- A node that is not registered gets no task, and the store stays as it is.
pub poll_task_unknown :
    (s : Service) (node_id : String) (now : ℕ)
    → Registry.get_node s.registry node_id ≡ none
    → poll_task s node_id now ≡ (s, ok (record { has_task = false; task = none }))
unfolding poll_task assign_task_for_node to_response
poll_task_unknown s node_id now e = ground arith

-- The status that a submission asks for.
abbrev pub submitted : SubmitResultRequest → TaskStatus
submitted r = if r.success then completed r.response_text r.duration_ms else failed r.error_message

-- A submission is acknowledged exactly if its task is known, and an error otherwise; either way the
-- task of that id, if any, gets the submitted status, and all other tasks stay as they are.
pub submit_result_lem :
    (s : Service) (r : SubmitResultRequest) (k : String)
    → let (s', reply) = submit_result s r in
      (reply ≡ (
        if is_some (get_task s.task_store r.task_id)
        then ok true
        else err (not_found "Task not found")))
      × (get_task s'.task_store k ≡ (
          if str_eq r.task_id k
          then Option.map {A = TaskInfo}
              (λ t. record t { status = submitted r })
              (get_task s.task_store k)
          else get_task s.task_store k))
unfolding submit_result
submit_result_lem s r k = elim (Bool-cases r.success) [
  | inl e ↦
      let (a, b, c) = complete_task_lem s.task_store r.task_id r.response_text r.duration_ms k in
      (ground (arith, a), ground (arith, b))
  | inr e ↦
      let (a, b, c) = fail_task_lem s.task_store r.task_id r.error_message k in
      (ground (arith, a), ground (arith, b))
]
