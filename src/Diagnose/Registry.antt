-- ===== src/Diagnose/Registry.antt =====
-- diagnose/registry.go, and the tools and categories of diagnose/types.go.
pub mod Laws
mod Tests
use digcore.Base.{
  ℕ, zero, suc, ◌+◌, Bool, true, false, String, Option, none, some, List, [], ◌∷◌, ◌++◌, str_eq,
  if◌then◌else◌, is_some, length, select, some_of, ◌==◌,
}
use digcore.Base.Dict
use digcore.Base.Dict.{Dict}

-- ToolScope
pub data ToolScope : Type 0 where
  local : ToolScope
  remote : ToolScope

-- ToolParam
pub record ToolParam : Type 0 where
  pub name : String
  pub kind : String  -- Type
  pub description : String
  pub required : Bool

-- DiagnoseTool; `F` is the type of what executes it, Execute and RemoteExecute.
pub record DiagnoseTool {ℓ} (F : Type ℓ) : Type ℓ where
  pub name : String
  pub description : String
  pub parameters : List ToolParam
  pub scope : ToolScope
  pub supported_os : List String
  pub execute : F

-- ToolCategory
pub record ToolCategory {ℓ} (F : Type ℓ) : Type ℓ where
  pub name : String
  pub plugin : String
  pub description : String
  pub scope : ToolScope
  pub tools : List (DiagnoseTool F)

-- ToolRegistry; `A` is the type of accessor factories.
pub record ToolRegistry {ℓ} (F A : Type ℓ) : Type ℓ where
  pub categories : Dict (ToolCategory F)
  pub tool_index : Dict (DiagnoseTool F)
  pub accessor_factory : Dict A

-- SupportsOS
unfoldable pub supports_os {ℓ} : {F : Type ℓ} → DiagnoseTool F → String → Bool
supports_os t goos =
    if length t.supported_os == 0 then true else some_of (λ os. str_eq os goos) t.supported_os

module _ {ℓ} {F : Type ℓ} where
  -- The category that Register adds to; the argument is the one stored so far.
  unfoldable pub category_or_new :
      Option (ToolCategory F) → String → DiagnoseTool F → ToolCategory F
  category_or_new (some cat) category tool = cat
  category_or_new none category tool = record {
    name = category;
    plugin = category;
    description = "";
    scope = tool.scope;
    tools = [];
  }

  abbrev pub with_tool : ToolCategory F → DiagnoseTool F → ToolCategory F
  with_tool cat tool = record cat { tools = cat.tools ++ (tool ∷ []) }

  -- The tools and the name of the category that RegisterCategory changes.
  unfoldable pub tools_of : Option (ToolCategory F) → List (DiagnoseTool F)
  tools_of (some cat) = cat.tools
  tools_of none = []

  abbrev pub name_of : Option (ToolCategory F) → String → String
  name_of (some cat) name = cat.name
  name_of none name = name

module _ {ℓ} {F A : Type ℓ} where
  -- NewToolRegistry
  abbrev pub new_tool_registry : ToolRegistry F A
  new_tool_registry = record { categories = []; tool_index = []; accessor_factory = [] }

  -- Register
  unfoldable pub register : ToolRegistry F A → String → DiagnoseTool F → ToolRegistry F A
  unfolding Dict.get Dict.put category_or_new
  register r category tool =
      let cat = category_or_new (Dict.get r.categories category) category tool in
      if is_some (Dict.get r.tool_index tool.name) then r else record r {
        categories = Dict.put r.categories category (with_tool cat tool);
        tool_index = Dict.put r.tool_index tool.name tool;
      }

  -- RegisterCategory
  unfoldable pub register_category :
      ToolRegistry F A → String → String → String → ToolScope → ToolRegistry F A
  unfolding Dict.get Dict.put tools_of
  register_category r name plugin description scope = record r {
    categories = Dict.put r.categories name (record {
      name = name_of (Dict.get r.categories name) name;
      plugin = plugin;
      description = description;
      scope = scope;
      tools = tools_of (Dict.get r.categories name);
    });
  }

  -- RegisterAccessorFactory
  unfoldable pub register_accessor_factory : ToolRegistry F A → String → A → ToolRegistry F A
  unfolding Dict.put
  register_accessor_factory r plugin factory = record r {
    accessor_factory = Dict.put r.accessor_factory plugin factory;
  }

  -- Get
  unfoldable pub get_tool : ToolRegistry F A → String → Option (DiagnoseTool F)
  unfolding Dict.get
  get_tool r name = Dict.get r.tool_index name

  -- ByPlugin
  unfoldable pub by_plugin : ToolRegistry F A → String → List (DiagnoseTool F)
  unfolding Dict.get tools_of
  by_plugin r plugin = tools_of (Dict.get r.categories plugin)
