-- ===== src/Diagnose/Executor/Chat.antt =====
-- The two routers of tool calls, that of a diagnosis and that of a chat.
use digcore.Base.{◌≡◌, refl, true, false, String, Option, some, str_eq}
use digcore.Base.Dict.{Dict}
use digcore.Diagnose.Registry.{ToolScope, local, remote, DiagnoseTool, ToolRegistry, get_tool}
use digcore.Diagnose.Catalog.{Printer, tool_supported_on}
use digcore.Diagnose.Executor.{
  Json, parse_args, Executes, run_found, execute_tool, execute_tool_impl, Shell, chat_direct,
  chat_execute_tool,
}
use digcore.Diagnose.Executor.Laws.{is_meta-false, is_meta, execute_tool_direct}

module _ {S A N : Type 0} (j : Json N) (p : Printer) (goos : String)
    (r : ToolRegistry (Executes S) A) (session : Option S) (shell : Option (String → Shell)) where
  -- What a chat and a diagnosis make of the local tool found.
  found-local :
      (name : String) (tool : DiagnoseTool (Executes S)) (scope : ToolScope) (args : Dict String)
      → tool.scope ≡ scope
      → scope ≡ local
      → chat_direct name (some tool) args ≡ execute_tool_impl session tool args
  unfolding chat_direct execute_tool_impl
  found-local name tool local args e l = rw e refl
  found-local name tool remote args e l = cc

  -- A local tool that is supported on the operating system is run for its name alike in a chat and in
  -- a diagnosis, when its name is that of no meta tool and not exec_shell.
  pub chat_execute_tool-eq-execute_tool :
      (name raw : String) (tool : DiagnoseTool (Executes S))
      → is_meta name ≡ false
      → str_eq name "exec_shell" ≡ false
      → get_tool r name ≡ some tool
      → tool.scope ≡ local
      → tool_supported_on p r name goos ≡ true
      → chat_execute_tool j p goos r shell name raw ≡ execute_tool j p goos r session name raw
  unfolding chat_execute_tool run_found
  chat_execute_tool-eq-execute_tool name raw tool m e g l s =
      let (b, c, d) = is_meta-false name m in
      let direct = execute_tool_direct j p goos r session name raw m in
      let same = found-local name tool tool.scope (parse_args j raw) refl l in
      rw (direct, s, g) (rw (b, c, d, e) same)
