-- ===== src/Diagnose/Executor.antt =====
-- diagnose/executor.go: the routing of the model's tool calls, and their arguments.
pub mod Laws
pub mod Chat
mod Tests
use Prim.Native.String.{count}
use digcore.Base.{
  ℕ, Bool, true, false, String, append, Option, none, some, List, [], ◌∷◌, str_eq, ltb, ◌||◌,
  if◌then◌else◌, map, take,
}
use digcore.Base.Dict
use digcore.Base.Dict.{Dict}
use digcore.Diagnose.Registry.{ToolScope, local, remote, DiagnoseTool, ToolRegistry, get_tool}
use digcore.Diagnose.Catalog.{Printer, tool_supported_on, list_categories_for_os, list_tools_for_os}

-- What a call gives: a text, or an error with its text.
pub data Outcome : Type 0 where
  output : String → Outcome
  failed : String → Outcome

-- The values that encoding/json decodes: nil, a float64, an object or array with what Marshal makes of
-- it, and others with what fmt.Sprint makes of them, which stands for Marshal's errors as well.
pub data JsonValue (N : Type 0) : Type 0 where
  null : JsonValue N
  number : N → JsonValue N
  composite : String → JsonValue N
  printed : String → JsonValue N

-- encoding/json and strconv: decoding into a map of texts, where a null gives a nil map; decoding into a
-- map of values; and FormatFloat.
pub record Json (N : Type 0) : Type 0 where
  pub texts : String → Option (Option (Dict String))
  pub values : String → Option (Dict (JsonValue N))
  pub format_float : N → String

module _ {N : Type 0} where
  -- anyToString
  unfoldable pub any_to_string : Json N → JsonValue N → String
  any_to_string j null = ""
  any_to_string j (number n) = j.format_float n
  any_to_string j (composite s) = s
  any_to_string j (printed s) = s

  -- The second attempt of unmarshalStringMap.
  unfoldable pub from_values : Json N → Option (Dict (JsonValue N)) → Option (Dict String)
  unfolding any_to_string
  from_values j none = none
  from_values j (some m) = some (map (λ e. (e.0, any_to_string j e.1)) m)

  -- unmarshalStringMap; none is a nil map.
  unfoldable pub unmarshal_string_map : Json N → String → Option (Dict String)
  unfolding from_values
  unmarshal_string_map j raw = elim (j.texts raw) [
    | some m ↦ m
    | none ↦ from_values j (j.values raw)
  ]

  -- ParseArgs
  unfoldable pub parse_args : Json N → String → Dict String
  unfolding unmarshal_string_map
  parse_args j raw =
      if str_eq raw ""
      then []
      else elim (unmarshal_string_map j raw) [ none ↦ ("_raw", raw) ∷ [] | some m ↦ m ]

  -- ParseToolArgs; a nil map reads as an empty one.
  unfoldable pub parse_tool_args : Json N → String → Dict String
  unfolding unmarshal_string_map
  parse_tool_args j raw =
      if str_eq raw ""
      then []
      else elim (unmarshal_string_map j raw) [ none ↦ ("_raw", raw) ∷ [] | some m ↦ m ]

-- args[key]
unfoldable pub arg : Dict String → String → String
unfolding Dict.get
arg args key = elim (Dict.get args key) [ none ↦ "" | some v ↦ v ]

-- FormatToolArgsDisplay; `first_77` is what `string(runes[:77])` gives.
unfoldable pub format_tool_args_display : (String → String) → String → Dict String → String
unfolding arg
format_tool_args_display first_77 name args =
    if str_eq name "call_tool"
    then if str_eq (arg args "tool_args") "" || str_eq (arg args "tool_args") "{}"
      then arg args "name"
      else append (arg args "name") (append " " (arg args "tool_args"))
    else if str_eq name "list_tools"
    then arg args "category"
    else if str_eq name "exec_shell"
    then if ltb 80 (count (arg args "command"))
      then append (first_77 (arg args "command")) "..."
      else arg args "command"
    else ""

-- What executes a tool, Execute and RemoteExecute; either may be nil. `S` is the type of sessions.
pub record Executes (S : Type 0) : Type 0 where
  pub execute : Option (Dict String → Outcome)
  pub remote_execute : Option (S → Dict String → Outcome)

-- executeToolImpl for a local tool.
unfoldable pub run_local : String → Option (Dict String → Outcome) → Dict String → Outcome
run_local name none args = failed (append "tool " (append name " has no Execute function"))
run_local name (some f) args = f args

module _ {S : Type 0} where
  -- executeToolImpl for a remote tool.
  unfoldable pub run_remote :
      String → Option (S → Dict String → Outcome) → Option S → Dict String → Outcome
  run_remote name none session args =
      failed (append "tool " (append name " has no RemoteExecute function"))
  run_remote name (some f) none args = failed (append "no session available for remote tool " name)
  run_remote name (some f) (some s) args = f s args

  -- executeToolImpl
  unfoldable pub execute_tool_impl : Option S → DiagnoseTool (Executes S) → Dict String → Outcome
  unfolding run_local run_remote
  execute_tool_impl session tool args = elim tool.scope [
    | local ↦ run_local tool.name tool.execute.execute args
    | remote ↦ run_remote tool.name tool.execute.remote_execute session args
  ]

  -- The end of the cases call_tool and default: the tool found for a name runs if it is supported.
  unfoldable pub run_found :
      Option S → String → String → Bool → Option (DiagnoseTool (Executes S)) → Dict String → Outcome
  unfolding execute_tool_impl
  run_found session goos name supported none args = failed (append "unknown tool: " name)
  run_found session goos name supported (some tool) args =
      if supported
      then execute_tool_impl session tool args
      else failed (append "tool " (append name (append " is not supported on " goos)))

module _ {S A N : Type 0} where
  -- executeTool
  unfoldable pub execute_tool :
      Json N → Printer → String → ToolRegistry (Executes S) A → Option S → String → String → Outcome
  unfolding parse_args parse_tool_args arg run_found get_tool
  execute_tool j p goos r session name raw_args =
      let args = parse_args j raw_args in
      let tool_name = arg args "name" in
      let category = arg args "category" in
      if str_eq name "list_tool_categories"
      then output (list_categories_for_os p r goos)
      else if str_eq name "list_tools"
      then if str_eq category ""
        then failed "list_tools requires 'category' parameter"
        else output (list_tools_for_os p r category goos)
      else if str_eq name "call_tool"
      then if str_eq tool_name ""
        then failed "call_tool requires 'name' parameter"
        else run_found session goos tool_name (tool_supported_on p r tool_name goos)
            (get_tool r tool_name) (parse_tool_args j (arg args "tool_args"))
      else run_found session goos name (tool_supported_on p r name goos) (get_tool r name) args

-- What ExecuteShell gives: the user's refusal, or the output of a command, or an error.
pub data Shell : Type 0 where
  unapproved : Shell
  shell_output : String → Shell
  shell_failed : String → Shell

unfoldable pub shell_outcome : Shell → Outcome
shell_outcome unapproved = output "user rejected command execution"
shell_outcome (shell_output s) = output s
shell_outcome (shell_failed e) = failed e

-- The case exec_shell of a chat's executeTool; the executor may be nil.
unfoldable pub run_shell : Option (String → Shell) → String → Outcome
unfolding shell_outcome
run_shell none command = failed "shell execution not enabled (no ShellExecutor configured)"
run_shell (some exec) command =
    if str_eq command ""
    then failed "exec_shell requires 'command' parameter"
    else shell_outcome (exec command)

module _ {S : Type 0} where
  -- The end of the case call_tool of a chat's executeTool, for the tool found.
  unfoldable pub chat_call : String → Option (DiagnoseTool (Executes S)) → Dict String → Outcome
  unfolding run_local
  chat_call name none args = failed (append "unknown tool: " name)
  chat_call name (some tool) args = elim tool.scope [
    | remote ↦ failed (
        append "tool "
          (append tool.name " requires a remote connection (not available in chat mode)"))
    | local ↦ run_local tool.name tool.execute.execute args
  ]

  -- The default case of a chat's executeTool, for the tool found.
  unfoldable pub chat_direct : String → Option (DiagnoseTool (Executes S)) → Dict String → Outcome
  unfolding run_local
  chat_direct name none args = failed (append "unknown tool: " name)
  chat_direct name (some tool) args = run_local tool.name tool.execute.execute args

module _ {S A N : Type 0} where
  -- executeTool of a chat
  unfoldable pub chat_execute_tool :
      Json N
      → Printer
      → String
      → ToolRegistry (Executes S) A
      → Option (String → Shell)
      → String
      → String
      → Outcome
  unfolding parse_args parse_tool_args arg chat_call chat_direct run_shell get_tool
  chat_execute_tool j p goos r shell name raw_args =
      let args = parse_args j raw_args in
      let tool_name = arg args "name" in
      let category = arg args "category" in
      if str_eq name "list_tool_categories"
      then output (list_categories_for_os p r goos)
      else if str_eq name "list_tools"
      then if str_eq category ""
        then failed "list_tools requires 'category' parameter"
        else output (list_tools_for_os p r category goos)
      else if str_eq name "call_tool"
      then if str_eq tool_name ""
        then failed "call_tool requires 'name' parameter"
        else chat_call tool_name (get_tool r tool_name) (parse_tool_args j (arg args "tool_args"))
      else if str_eq name "exec_shell"
      then run_shell shell (arg args "command")
      else chat_direct name (get_tool r name) args
