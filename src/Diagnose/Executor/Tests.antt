-- ===== src/Diagnose/Executor/Tests.antt =====
-- Calls of tools of a small registry.
use digcore.Base.{ℕ, ◌≡◌, refl, none, some, List, [], ◌∷◌, All, select, not, str_eq, if◌then◌else◌}
use digcore.Base.Dict
use digcore.Base.Dict.{Dict}
use digcore.Diagnose.Registry.{
  local, DiagnoseTool, ToolRegistry, new_tool_registry, register, category_or_new, supports_os,
  get_tool,
}
use digcore.Diagnose.Registry.Laws.{Call, registers, after}
use digcore.Diagnose.Catalog.{Printer, by_plugin_for_os, tool_supported_on}
use digcore.Diagnose.Executor.{
  output, failed, Json, null, number, Executes, execute_tool, execute_tool_impl, parse_args,
  chat_execute_tool, arg,
}
use digcore.Diagnose.Executor.Chat.{chat_execute_tool-eq-execute_tool}
use digcore.Diagnose.Executor.Laws.{is_meta, execute_tool-by_plugin_for_os}

abbrev plain : Printer
plain = record { to_lower = λ s. s; decimal = λ n. "n"; quote = λ s. s; pad_12 = λ s. s }

-- Two texts are objects, and any other is none.
abbrev json : Json ℕ
json = record {
  texts = λ s.
      if str_eq s "CALL"
      then some (some (("name", "disk_usage") ∷ ("tool_args", "ARGS") ∷ []))
      else if str_eq s "null"
      then some none
      else none;
  values = λ s. if str_eq s "ARGS" then some (("path", null) ∷ ("depth", number 3) ∷ []) else none;
  format_float = λ n. "3";
}

abbrev echo : DiagnoseTool (Executes ℕ)
echo = record {
  name = "disk_usage";
  description = "";
  parameters = [];
  scope = local;
  supported_os = [];
  execute = record { execute = some (λ args. output (arg args "depth")); remote_execute = none };
}

abbrev start_up : List (Call (Executes ℕ))
start_up = registers "disk" echo ∷ []

abbrev filled : ToolRegistry (Executes ℕ) ℕ
filled = after new_tool_registry start_up

by_call_tool : execute_tool json plain "linux" filled none "call_tool" "CALL" ≡ output "3"
unfolding execute_tool after register Dict.get Dict.put supports_os category_or_new
    tool_supported_on
by_call_tool = refl

unnamed :
    execute_tool json plain "linux" filled none "call_tool" "null"
    ≡ failed "call_tool requires 'name' parameter"
unfolding execute_tool after register Dict.get Dict.put supports_os category_or_new
unnamed = refl

execute_tool-by_plugin_for_os_example :
    All
      (λ t.
        execute_tool json plain "linux" filled none t.name "ARGS"
        ≡ execute_tool_impl none t (parse_args json "ARGS"))
      (select (λ t. not (is_meta t.name)) (by_plugin_for_os plain filled "disk" "linux"))
execute_tool-by_plugin_for_os_example =
    execute_tool-by_plugin_for_os json plain "linux" none ℕ start_up "disk" "ARGS"

-- A chat runs a tool that a diagnosis refuses on this operating system.
abbrev linux_only : ToolRegistry (Executes ℕ) ℕ
linux_only = register new_tool_registry "disk" (record echo { supported_os = "linux" ∷ [] })

refused :
    execute_tool json plain "darwin" linux_only none "disk_usage" "ARGS"
    ≡ failed "tool disk_usage is not supported on darwin"
unfolding execute_tool register Dict.get Dict.put supports_os category_or_new tool_supported_on
refused = refl

run_by_chat : chat_execute_tool json plain "darwin" linux_only none "disk_usage" "ARGS" ≡ output "3"
unfolding chat_execute_tool register Dict.get Dict.put supports_os category_or_new
run_by_chat = refl

chat_execute_tool-eq-execute_tool_example :
    chat_execute_tool json plain "linux" filled none "disk_usage" "ARGS"
    ≡ execute_tool json plain "linux" filled none "disk_usage" "ARGS"
unfolding get_tool after register Dict.get Dict.put supports_os category_or_new tool_supported_on
chat_execute_tool-eq-execute_tool_example =
    chat_execute_tool-eq-execute_tool json plain "linux" filled none none "disk_usage" "ARGS" echo
      refl refl refl refl refl
