-- ===== src/Registry/Names.antt =====
-- registry.rs: at any time, a node's name is registered once at most.
use hyverk_distributed_llm.Common.{
  ℕ, ◌-◌, String, false, ◌≡◌, refl, none, some, inl, inr, List, [], ◌∷◌, arith, contains, distinct,
  if◌then◌else◌, str_eq, eq_iff, ltb, leb, is_some, Bool-cases, Option-cases,
}
use hyverk_distributed_llm.Common.HashMap
use hyverk_distributed_llm.Common.HashMap.{
  HashMap, IsMap, keys, get-insert, insert-IsMap, get-modify, keys-modify, get-retain, retain-IsMap,
  get-remove, remove-IsMap, get-absent,
}
use hyverk_distributed_llm.Registry.{
  NodeRegistry, NodeInfo, NodeCapabilities, new, new_node, old_ids, remove_each, register,
  deregister, heartbeat, get_node, remove_stale_nodes,
}

contains-old_ids :
    (name k : String) (nodes : NodeRegistry)
    → IsMap nodes
    → contains (old_ids name nodes) k
      ≡ elim (HashMap.get k nodes) [ none ↦ false | some n ↦ str_eq n.node_name name ]
unfolding contains old_ids HashMap.get distinct
contains-old_ids name k [] h = refl
contains-old_ids name k ((i, n) ∷ nodes) h =
    ground (arith, eq_iff i k, contains-old_ids name k nodes, get-absent i nodes)

remove_each-IsMap :
    (ids : List String) (nodes : NodeRegistry) → IsMap nodes → IsMap (remove_each ids nodes)
unfolding remove_each
remove_each-IsMap [] nodes h = h
remove_each-IsMap (i ∷ ids) nodes h =
    remove_each-IsMap ids (HashMap.remove i nodes) (remove-IsMap i nodes h)

get-remove_each :
    (ids : List String) (k : String) (nodes : NodeRegistry)
    → IsMap nodes
    → HashMap.get k (remove_each ids nodes) ≡ (if contains ids k then none else HashMap.get k nodes)
unfolding remove_each contains
get-remove_each [] k nodes h = refl
get-remove_each (i ∷ ids) k nodes h = ground (
  arith,
  get-remove_each ids k (HashMap.remove i nodes) (remove-IsMap i nodes h),
  get-remove i k nodes h,
)

pub record Named (nodes : NodeRegistry) : Type 0 where
  pub is_map : IsMap nodes
  pub keyed : (k : String) (n : NodeInfo) → HashMap.get k nodes ≡ some n → n.node_id ≡ k
  pub named :
      (j k : String) (n o : NodeInfo)
      → HashMap.get j nodes ≡ some n
      → HashMap.get k nodes ≡ some o
      → n.node_name ≡ o.node_name
      → j ≡ k

-- The registry after a registration, read at any id: the new node under its id, no other node of
-- its name, and every other node as it was.
pub get_node-register :
    (nodes : NodeRegistry) (node_id name : String) (caps : NodeCapabilities) (now : ℕ) (k : String)
    → Named nodes
    → get_node (register nodes node_id name caps now).0 k ≡ (
        if str_eq node_id k
        then some (new_node node_id name caps now)
        else elim (get_node nodes k) [
          | none ↦ none
          | some n ↦ if str_eq n.node_name name then none else some n
        ])
unfolding get_node register
get_node-register nodes i name caps now k v = ground (
  arith,
  get-insert i k (new_node i name caps now) (remove_each (old_ids name nodes) nodes),
  get-remove_each (old_ids name nodes) k nodes v.is_map,
  contains-old_ids name k nodes v.is_map,
)

register-Named :
    (nodes : NodeRegistry) (node_id name : String) (caps : NodeCapabilities) (now : ℕ)
    → Named nodes
    → Named (register nodes node_id name caps now).0
unfolding get_node
register-Named nodes i name caps now v =
    let at = λ (k : String). get_node-register nodes i name caps now k v in
    record {
      is_map = is_map';
      keyed = λ k n e. ground (arith, at k, eq_iff i k, v.keyed k n);
      named = λ j k n o e f same. ground (
        arith,
        at j,
        at k,
        v.named j k n o,
        eq_iff i j,
        eq_iff i k,
        eq_iff n.node_name name,
        eq_iff o.node_name name,
      );
    }
  where
    is_map' : IsMap (register nodes i name caps now).0
    is_map' =
        unfold register in
        insert-IsMap i (new_node i name caps now) (remove_each (old_ids name nodes) nodes)
          (remove_each-IsMap (old_ids name nodes) nodes v.is_map)

deregister-Named : (nodes : NodeRegistry) (i : String) → Named nodes → Named (deregister nodes i)
unfolding deregister
deregister-Named nodes i v =
    let at = λ (k : String). get-remove i k nodes v.is_map in
    record {
      is_map = remove-IsMap i nodes v.is_map;
      keyed = λ k n e. ground (arith, at k, v.keyed k n);
      named = λ j k n o e f same. ground (arith, at j, at k, v.named j k n o);
    }

beat : ℕ → ℕ → NodeInfo → NodeInfo
beat active_tasks now n = record n { last_heartbeat = now; active_tasks = active_tasks }

modify-Named :
    (nodes : NodeRegistry) (i : String) (active_tasks now : ℕ)
    → Named nodes
    → Named (HashMap.modify i (beat active_tasks now) nodes)
unfolding beat
modify-Named nodes i active_tasks now v =
    let b = beat active_tasks now in
    let at = λ (k : String). get-modify i k b nodes in
    record {
      is_map = rw (keys-modify i b nodes) v.is_map;
      keyed = λ k n e. elim (Option-cases (HashMap.get k nodes)) [
        | inl a ↦ absurd (ground (arith, at k))
        | inr (x, a) ↦ ground (arith, at k, v.keyed k x)
      ];
      named = λ j k n o e f same. elim (Option-cases (HashMap.get j nodes)) [
        | inl a ↦ absurd (ground (arith, at j))
        | inr (x, a) ↦ elim (Option-cases (HashMap.get k nodes)) [
          | inl c ↦ absurd (ground (arith, at k))
          | inr (y, c) ↦ ground (arith, at j, at k, v.named j k x y)
        ]
      ];
    }

heartbeat-Named :
    (nodes : NodeRegistry) (i : String) (active_tasks now : ℕ)
    → Named nodes
    → Named (heartbeat nodes i active_tasks now).0
unfolding heartbeat beat
heartbeat-Named nodes i active_tasks now v = elim (Bool-cases (is_some (HashMap.get i nodes))) [
  | inl h ↦ rw h (modify-Named nodes i active_tasks now v)
  | inr h ↦ rw h v
]

remove_stale_nodes-Named :
    (nodes : NodeRegistry) (timeout now : ℕ)
    → Named nodes
    → Named (remove_stale_nodes nodes timeout now)
unfolding remove_stale_nodes
remove_stale_nodes-Named nodes timeout now v =
    let keep = λ (n : NodeInfo). ltb (now - n.last_heartbeat) timeout in
    let at = λ (k : String). get-retain keep k nodes v.is_map in
    record {
      is_map = retain-IsMap keep nodes v.is_map;
      keyed = λ k n e. ground (arith, at k, v.keyed k n);
      named = λ j k n o e f same. ground (arith, at j, at k, v.named j k n o);
    }

pub data Step (nodes : NodeRegistry) : NodeRegistry → Type 0 where
  registers :
      (node_id name : String) (caps : NodeCapabilities) (now : ℕ)
      → Step nodes (register nodes node_id name caps now).0
  deregisters : (node_id : String) → Step nodes (deregister nodes node_id)
  beats :
      (node_id : String) (active_tasks now : ℕ)
      → Step nodes (heartbeat nodes node_id active_tasks now).0
  drops_stale : (timeout now : ℕ) → Step nodes (remove_stale_nodes nodes timeout now)

pub data Reach : NodeRegistry → Type 0 where
  here : Reach new
  next : {r s : NodeRegistry} → Reach r → Step r s → Reach s

Step-Named : {r s : NodeRegistry} → Named r → Step r s → Named s
Step-Named {r} v (registers i name caps now) = register-Named r i name caps now v
Step-Named {r} v (deregisters i) = deregister-Named r i v
Step-Named {r} v (beats i active_tasks now) = heartbeat-Named r i active_tasks now v
Step-Named {r} v (drops_stale timeout now) = remove_stale_nodes-Named r timeout now v

-- After any calls, each node is kept under its own id, and no two nodes have the same name.
pub Reach-Named : (nodes : NodeRegistry) → Reach nodes → Named nodes
unfolding HashMap.get distinct
Reach-Named nodes here = record {
  is_map = refl;
  keyed = λ k n e. cc;
  named = λ j k n o e f same. cc;
}
Reach-Named nodes (next r st) = Step-Named (Reach-Named _ r) st

-- After any calls, a node is dropped as stale exactly if its last heartbeat is no more recent than
-- the timeout.
pub get_node-remove_stale_nodes :
    (nodes : NodeRegistry) (timeout now : ℕ) (k : String)
    → Reach nodes
    → get_node (remove_stale_nodes nodes timeout now) k ≡ elim (get_node nodes k) [
      | none ↦ none
      | some n ↦ if leb timeout (now - n.last_heartbeat) then none else some n
    ]
unfolding get_node remove_stale_nodes
get_node-remove_stale_nodes nodes timeout now k r = ground (
  arith,
  get-retain (λ n. ltb (now - n.last_heartbeat) timeout) k nodes (Reach-Named nodes r).is_map,
)
