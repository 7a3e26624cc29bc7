-- ===== src/Data/Reduction.antt =====
-- Reductions (src/data/reduction.h and .cpp): an operator with the task it achieves and its subtasks.
-- Copies and assignments copy every field; the insertion of a set's elements one by one, in one of
-- the copies, gives that set. `orderSubtasks` is left out.
pub mod Replaced
mod Examples
use lilotane_smt_csp.Prelude.{List, [], ◌∷◌, ◌++◌, map, ℤ, negsuc}
use lilotane_smt_csp.Data.Substitution.{Substitution, image}
use lilotane_smt_csp.Data.Signature.{USignature, usig_substitute}
use lilotane_smt_csp.Data.HtnOp.{HtnOp, new_op, substitute}

pub record Reduction : Type 0 where
  pub op : HtnOp
  pub task_name_id : ℤ
  pub task_args : List ℤ
  pub subtasks : List USignature

-- `Reduction(op)`
pub of_op : HtnOp → Reduction
of_op op = record { op = op; task_name_id = negsuc 0; task_args = []; subtasks = [] }

-- `Reduction(nameId, args, task)`
pub new_reduction : ℤ → List ℤ → USignature → Reduction
new_reduction name args task = record {
  op = new_op name args;
  task_name_id = task.name_id;
  task_args = task.args;
  subtasks = [];
}

pub add_subtask : USignature → Reduction → Reduction
add_subtask subtask r = record r { subtasks = r.subtasks ++ (subtask ∷ []) }

pub set_subtasks : List USignature → Reduction → Reduction
set_subtasks subtasks r = record r { subtasks = subtasks }

pub get_task_signature : Reduction → USignature
get_task_signature r = record { name_id = r.task_name_id; args = r.task_args }

pub substitute_red : Substitution → Reduction → Reduction
unfolding of_op
substitute_red s r = record (of_op (substitute s r.op)) {
  task_name_id = r.task_name_id;
  task_args = map (image s) r.task_args;
  subtasks = map (usig_substitute s) r.subtasks;
}
