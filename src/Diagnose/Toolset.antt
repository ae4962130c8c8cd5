-- ===== src/Diagnose/Toolset.antt =====
-- diagnose/toolconv.go, and buildChatToolSet of diagnose/streaming.go: the definitions of tools that the
-- model gets.
pub mod Laws
mod Tests
use digcore.Base.{
  Bool, true, String, Option, none, some, List, [], ◌∷◌, ◌++◌, map, length, ltb, if◌then◌else◌,
}
use digcore.Base.Dict
use digcore.Base.Dict.{Dict}
use digcore.Diagnose.Registry.{ToolParam, DiagnoseTool, ToolRegistry}
use digcore.Diagnose.Catalog.{Printer, by_plugin_for_os}

-- Property
pub record Property : Type 0 where
  pub kind : String  -- Type
  pub description : String

-- Parameters, of type "object"
pub record Parameters : Type 0 where
  pub properties : Dict Property
  pub required : List String

-- Tool, of type "function", with the fields of its ToolFunction; nil parameters are `none`.
pub record AiTool : Type 0 where
  pub name : String
  pub description : String
  pub parameters : Option Parameters

-- The loop of diagnoseToolToAI over the parameters.
unfoldable pub param_loop : Parameters → List ToolParam → Parameters
unfolding Dict.put
param_loop ps [] = ps
param_loop ps (p ∷ rest) =
    param_loop
      (record {
        properties =
            Dict.put ps.properties p.name (record { kind = p.kind; description = p.description });
        required = if p.required then ps.required ++ (p.name ∷ []) else ps.required;
      })
      rest

module _ {ℓ} {F : Type ℓ} where
  -- diagnoseToolToAI
  unfoldable pub diagnose_tool_to_ai : DiagnoseTool F → AiTool
  unfolding param_loop
  diagnose_tool_to_ai t = record {
    name = t.name;
    description = t.description;
    parameters =
        if ltb 0 (length t.parameters)
        then some (param_loop (record { properties = []; required = [] }) t.parameters)
        else none;
  }

abbrev pub text_property : String → Property
text_property description = record { kind = "string"; description = description }

-- metaTools
unfoldable pub meta_tools : List AiTool
meta_tools =
    record {
      name = "list_tools";
      description = "查看某个工具类别下所有工具的详细参数说明（仅在需要参数细节时使用）";
      parameters = some (record {
        properties = ("category", text_property "工具大类名称") ∷ [];
        required = "category" ∷ [];
      });
    }
    ∷ record {
      name = "call_tool";
      description = "调用一个非直接注入的诊断工具（工具名和参数见系统提示中的工具目录）";
      parameters = some (record {
        properties =
            ("name", text_property "工具名称") ∷ ("tool_args", text_property "工具参数，JSON 字符串格式") ∷ [];
        required = "name" ∷ [];
      });
    }
    ∷ []

module _ {ℓ} {F A : Type ℓ} where
  -- buildToolSet
  unfoldable pub build_tool_set :
      Printer → ToolRegistry F A → String → String → List AiTool × List (DiagnoseTool F)
  unfolding by_plugin_for_os diagnose_tool_to_ai meta_tools
  build_tool_set p r plugin runtime_os =
      let direct_tools = by_plugin_for_os p r plugin runtime_os in
      (map diagnose_tool_to_ai direct_tools ++ meta_tools, direct_tools)

-- The definition of exec_shell.
unfoldable pub shell_tool : AiTool
shell_tool = record {
  name = "exec_shell";
  description = "Execute a shell command. Use when built-in tools are insufficient.";
  parameters = some (record {
    properties = ("command", text_property "Shell command to execute") ∷ [];
    required = "command" ∷ [];
  });
}

-- buildChatToolSet
unfoldable pub build_chat_tool_set : Bool → List AiTool
unfolding shell_tool
build_chat_tool_set allow_shell =
    let tools =
      record {
        name = "call_tool";
        description =
            "Invoke a diagnostic tool by name. All available tools are listed in the system prompt.";
        parameters = some (record {
          properties =
              ("name", text_property "Tool name")
              ∷ ("tool_args", text_property "Tool arguments as JSON string")
              ∷ [];
          required = "name" ∷ [];
        });
      }
      ∷ record {
        name = "list_tool_categories";
        description =
            "List all available tool categories (plugins). Use this to explore available diagnostic areas.";
        parameters = some (record { properties = []; required = [] });
      }
      ∷ record {
        name = "list_tools";
        description =
            "Show detailed parameter info for tools in a category. Use only when you need parameter details not shown in the catalog.";
        parameters = some (record {
          properties = ("category", text_property "Tool category name") ∷ [];
          required = "category" ∷ [];
        });
      }
      ∷ [] in
    if allow_shell then tools ++ (shell_tool ∷ []) else tools
