-- ===== src/Diagnose/Executor/Laws.antt =====
-- The routes of executeTool.
use digcore.Base.{◌≡◌, refl, Bool, false, true, String, Option, str_eq, if◌then◌else◌, arith}
use digcore.Base.{List, [], ◌∷◌, All, select, not, All-select, ◌∙◌}
use digcore.Diagnose.Registry.{DiagnoseTool, ToolRegistry, get_tool, new_tool_registry}
use digcore.Diagnose.Registry.Laws.{Call, after, after-IsValid, new_tool_registry-IsValid}
use digcore.Diagnose.Catalog.{Printer, tool_supported_on, by_plugin_for_os}
use digcore.Diagnose.Catalog.Laws.{after-IsIndexed}
use digcore.Diagnose.Catalog.Offers.{Accepted, by_plugin_for_os-Accepted}
use digcore.Diagnose.Executor.{
  Json, parse_args, arg, Executes, run_found, execute_tool, execute_tool_impl,
}

-- The names that executeTool treats by themselves.
abbrev pub is_meta : String → Bool
is_meta name =
    if str_eq name "list_tool_categories"
    then true
    else if str_eq name "list_tools"
    then true
    else str_eq name "call_tool"

pub is_meta-false :
    (name : String)
    → is_meta name ≡ false
    → (str_eq name "list_tool_categories" ≡ false)
      × (str_eq name "list_tools" ≡ false)
      × (str_eq name "call_tool" ≡ false)
is_meta-false name m = ground arith

module _ {S A N : Type 0} (j : Json N) (p : Printer) (goos : String)
    (r : ToolRegistry (Executes S) A) (session : Option S) where
  -- Calling a tool by call_tool, with a name that is no meta tool's and its arguments as a text, does
  -- what calling it directly with that text as its arguments does.
  pub execute_tool-call_tool :
      (name raw : String)
      → is_meta name ≡ false
      → str_eq name "" ≡ false
      → arg (parse_args j raw) "name" ≡ name
      → execute_tool j p goos r session "call_tool" raw
        ≡ execute_tool j p goos r session name (arg (parse_args j raw) "tool_args")
  unfolding execute_tool
  execute_tool-call_tool name raw m e n =
      let (b, c, d) = is_meta-false name m in rw (n, e, b, c, d) refl

  -- Under a name that is no meta tool's, executeTool runs the tool that the index has for the name, if
  -- it is supported.
  pub execute_tool_direct :
      (name raw : String)
      → is_meta name ≡ false
      → execute_tool j p goos r session name raw
        ≡ run_found session goos name
            (tool_supported_on p r name goos)
            (get_tool r name)
            (parse_args j raw)
  unfolding execute_tool
  execute_tool_direct name raw m = let (b, c, d) = is_meta-false name m in rw (b, c, d) refl

  -- Called by its name, a tool that Get leads to and that is supported runs itself.
  execute_tool-Accepted :
      (raw : String) (ts : List (DiagnoseTool (Executes S)))
      → All (Accepted p goos r) ts
      → All
          (λ t.
            not (is_meta t.name) ≡ true
            → execute_tool j p goos r session t.name raw
              ≡ execute_tool_impl session t (parse_args j raw))
          ts
  unfolding run_found
  execute_tool-Accepted raw [] h = tt
  execute_tool-Accepted raw (t ∷ ts) ((s, g), h) = (
    λ m. execute_tool_direct t.name raw (ground arith) ∙ rw (s, g) refl,
    execute_tool-Accepted raw ts h,
  )

module _ {S N : Type 0} (j : Json N) (p : Printer) (goos : String) (session : Option S)
    (A : Type 0) where
  -- In a registry that calls of Register and RegisterCategory filled, each tool that ByPluginForOS gives
  -- the model on an operating system, but for names of meta tools, is the tool that executeTool runs
  -- there for its name, whatever the arguments.
  pub execute_tool-by_plugin_for_os :
      (calls : List (Call (Executes S))) (plugin raw : String)
      → All
          (λ t.
            execute_tool j p goos (after (new_tool_registry {A = A}) calls) session t.name raw
            ≡ execute_tool_impl session t (parse_args j raw))
          (select
            (λ t. not (is_meta t.name))
            (by_plugin_for_os p (after (new_tool_registry {A = A}) calls) plugin goos))
  execute_tool-by_plugin_for_os calls plugin raw =
      let r = after (new_tool_registry {A = A}) calls in
      let offered = by_plugin_for_os p r plugin goos in
      All-select
        (λ t.
          execute_tool j p goos r session t.name raw
          ≡ execute_tool_impl session t (parse_args j raw))
        (λ t. not (is_meta t.name)) offered
        (execute_tool-Accepted j p goos r session raw offered (
          by_plugin_for_os-Accepted p goos r plugin
            (after-IsValid new_tool_registry calls new_tool_registry-IsValid)
            (after-IsIndexed new_tool_registry calls tt)))
