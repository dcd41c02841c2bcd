-- ===== src/Policy/Schema/Encode.antt =====
-- The `as_dict` methods of policy/schema.py.
use codex_cursor_devstack.Base.{String, false}
use codex_cursor_devstack.Base.Value.{ℤ, Float, Value, Fields, Key, text_items}
use codex_cursor_devstack.Policy.Choices.{
  Choice, workspace_choice, reference_choice, external_choice, mode_choice, visibility_choice,
  security_choice,
}
use codex_cursor_devstack.Policy.Checks.{Cpu}
use codex_cursor_devstack.Policy.Schema.Records.{
  TaskShellNetworkPolicy, GitPolicy, PolicyResourceLimits, ExecutionPolicy,
}

-- `{k: v, **rest}`
abbrev pub field : String → Value → Fields → Fields
field k v rest = Fields.entry (Key.name k) v rest

abbrev pub single : String → Value → Value
single k v = Value.object (field k v Fields.end)

unfoldable pub cpu_value : Cpu → Value
cpu_value (Cpu.whole n) = Value.int (ℤ.pos n)
cpu_value (Cpu.fraction n k) = Value.float (Float.finite false n k)

abbrev pub choice_text : {A : Type 0} ⦃c : Choice A⦄ → A → Value
choice_text ⦃c⦄ a = Value.text (c.to_name a)

unfoldable pub task_shell_as_dict : TaskShellNetworkPolicy → Value
task_shell_as_dict t = Value.object (
    field "mode" (choice_text t.mode)
      (field "destinations" (Value.list (text_items t.destinations)) Fields.end))

unfoldable pub git_as_dict : GitPolicy → Value
git_as_dict g = Value.object (
    field "read" (Value.boolean g.read)
      (field "commit" (Value.boolean g.commit) (field "push" (Value.boolean g.push) Fields.end)))

unfoldable pub resources_as_dict : PolicyResourceLimits → Value
resources_as_dict r = Value.object (
    field "cpu" (cpu_value r.cpu) (
      field "memory" (Value.int (ℤ.pos r.memory_bytes))
        (field "pids" (Value.int (ℤ.pos r.pids)) Fields.end)))

unfoldable pub policy_dict : ExecutionPolicy → Fields
policy_dict p = field "version" (Value.int (ℤ.pos p.version)) (
    field "workspace" (single "access" (choice_text p.workspace)) (
      field "reference" (single "access" (choice_text p.reference)) (
        field "filesystem" (single "external" (choice_text p.filesystem)) (
          field "network" (single "task_shell" (task_shell_as_dict p.network)) (
            field "credentials"
              (single "provider_auth" (single "task_shell" (choice_text p.credentials)))
              (field "git" (git_as_dict p.git) (
                field "sandbox" (single "required" (Value.boolean p.sandbox)) (
                  field "resources" (resources_as_dict p.resources)
                    (field "security_class" (choice_text p.security_class) Fields.end)))))))))

unfoldable pub as_dict : ExecutionPolicy → Value
as_dict p = Value.object (policy_dict p)
