-- ===== src/Tasks/Examples.antt =====
-- task_store.rs: the theorems at concrete inputs.
use hyverk_distributed_llm.Common.{
  String, true, ◌≡◌, refl, some, [], ◌∷◌, contains, is_some, if◌then◌else◌, str_eq,
}
use hyverk_distributed_llm.Common.HashMap
use hyverk_distributed_llm.Tasks.Invariant.{Queued}
use hyverk_distributed_llm.Tasks.Runs.{
  Reach, here, next, creates, assigns, Reach-Queued, assign_pending_task_finds,
  assign_pending_task_exclusive,
}
use hyverk_distributed_llm.Tasks.{
  TaskStore, TaskInfo, is_pending, assigned, new, new_task, create_task, judge, judge_task,
  assign_loop, to_inference, assign_pending_task, get_task,
}

abbrev first_task : TaskInfo
first_task = new_task "t1" "qwen" "hello" 0 9000 5

abbrev one : TaskStore
one = (create_task new "t1" "qwen" "hello" 0 9000 5).0

abbrev two : TaskStore
two = (create_task one "t2" "llama" "bye" 0 10 6).0

two-Reach : Reach two
two-Reach =
    next (next here (creates "t1" "qwen" "hello" 0 9000 5)) (creates "t2" "llama" "bye" 0 10 6)

-- The token limit is capped.
capped : first_task.max_tokens ≡ 8192
capped = refl

Reach-Queued_example : Queued two
Reach-Queued_example = Reach-Queued two two-Reach

assign_pending_task_finds_example : is_some (assign_pending_task two "n" ("qwen" ∷ []) 7).1 ≡ true
unfolding create_task new get_task HashMap.get HashMap.insert contains
assign_pending_task_finds_example =
    assign_pending_task_finds two "n" ("qwen" ∷ []) 7 "t1" first_task two-Reach refl refl refl

abbrev second_task : TaskInfo
second_task = new_task "t2" "llama" "bye" 0 10 6

assign_pending_task_exclusive_example :
    (t : TaskInfo) × (to_inference second_task ≡ to_inference t)
    × (get_task two "t2" ≡ some t)
    × (is_pending t.status ≡ true)
    × (contains ("llama" ∷ []) t.model ≡ true)
    × ((k : String)
        → get_task (assign_pending_task two "n" ("llama" ∷ []) 7).0 k
          ≡ (if str_eq "t2" k then some (record t { status = assigned "n" 7 }) else get_task two k))
unfolding create_task new HashMap.get HashMap.insert HashMap.modify contains assign_pending_task
    assign_loop judge judge_task
assign_pending_task_exclusive_example =
    assign_pending_task_exclusive two "n" ("llama" ∷ []) 7 (to_inference second_task) two-Reach refl

abbrev given : TaskStore
given = (assign_pending_task two "n" ("qwen" ∷ []) 7).0

given-Reach : Reach given
given-Reach = next two-Reach (assigns "n" ("qwen" ∷ []) 7)
