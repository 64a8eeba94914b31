-- ===== src/Approval/Todos.antt =====
-- server/src/modules/unified-approval/approval-todo.bridge.ts and approval-notification.bridge.ts.
use Prim.Native.String.{◌++◌ as concat}
use noidear.Base.{
  ℕ, String, Bool, true, false, ◌&&◌, none, some, List, [], ◌∷◌, ◌++◌, ◌==◌, map, any, update_many,
  find_many, str_eq, dedup, if◌then◌else◌,
}
use noidear.Approval.Db.{
  Db, Task, Todo, Notification, approval_task, approval_approved, approval_rejected, task_of,
}

abbrev pub todo_row : Task → String → ℕ → Todo
todo_row task title user_id = record {
  user_id = user_id;
  todo_type = "approval_task";
  related_id = task.id;
  title = concat task.step_name (concat "：" title);
  description = title;
  is_pending = true;
  completed_at = none;
  completed_by = none;
}

abbrev pub todo_users : Task → List ℕ → List ℕ
todo_users task candidates = elim task.assignee_user_id [ none ↦ candidates | some u ↦ u ∷ [] ]

abbrev pub task_todo : ℕ → Todo → Bool
task_todo task_id t = str_eq t.todo_type "approval_task" && t.related_id == task_id && t.is_pending

abbrev pub finish_todo : ℕ → ℕ → Todo → Todo
finish_todo now by t = record t {
  is_pending = false;
  completed_at = some now;
  completed_by = some by;
}

-- The todo is open and of one of the tasks.
abbrev pub instance_todo : List Task → Todo → Bool
instance_todo tasks t =
    str_eq t.todo_type "approval_task"
    && any (λ (k : Task). t.related_id == k.id) tasks
    && t.is_pending

abbrev pub task_notice : String → ℕ → ℕ → Notification
task_notice title task_id user_id = record {
  user_id = user_id;
  notification_type = approval_task;
  title = "您有新的审批待办";
  content = concat title " 等待审批，任务 ";
  task_id = some task_id;
}

module _ {B : Type 0} where
  unfoldable pub create_task_todos : Task → String → List ℕ → Db B → Db B
  create_task_todos task title candidates s = record s {
    todos = s.todos ++ map (todo_row task title) (dedup [] (todo_users task candidates));
  }

  unfoldable pub close_task_todos : ℕ → ℕ → ℕ → Db B → Db B
  close_task_todos now task_id completed_by s = record s {
    todos = update_many (task_todo task_id) (finish_todo now completed_by) s.todos;
  }

  unfoldable pub cancel_instance_todos : ℕ → ℕ → ℕ → Db B → Db B
  cancel_instance_todos now instance_id actor_id s = record s {
    todos =
        update_many (instance_todo (find_many (task_of instance_id) s.tasks))
          (finish_todo now actor_id) s.todos;
  }

  unfoldable pub notify_task_created : List ℕ → String → ℕ → Db B → Db B
  notify_task_created user_ids title task_id s = record s {
    notifications = s.notifications ++ map (task_notice title task_id) (dedup [] user_ids);
  }

  unfoldable pub notify_requester : ℕ → Bool → String → Db B → Db B
  notify_requester user_id approved title s = record s {
    notifications =
        s.notifications
        ++ (record {
          user_id = user_id;
          notification_type = if approved then approval_approved else approval_rejected;
          title = if approved then "审批已通过" else "审批已驳回";
          content = title;
          task_id = none;
        })
          ∷ [];
  }
