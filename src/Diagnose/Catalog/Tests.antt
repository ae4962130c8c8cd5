-- ===== src/Diagnose/Catalog/Tests.antt =====
-- A registry with tools for Linux and for all systems.
use digcore.Base.{ℕ, ◌≡◌, refl, String, List, [], ◌∷◌, true}
use digcore.Base.Dict
use digcore.Diagnose.Registry.{
  local, DiagnoseTool, ToolRegistry, new_tool_registry, register, category_or_new,
  register_category, tools_of, supports_os,
}
use digcore.Diagnose.Registry.Laws.{Call, registers, describes, after}
use digcore.Diagnose.Catalog.{
  Printer, list_tool_catalog_smart_for_os, list_categories_for_os, list_tools_for_os,
}

abbrev plain : Printer
plain = record { to_lower = λ s. s; decimal = λ n. "n"; quote = λ s. s; pad_12 = λ s. s }

abbrev tool_of : String → List String → DiagnoseTool ℕ
tool_of name systems = record {
  name = name;
  description = "reads";
  parameters =
      record { name = "path"; kind = "string"; description = "where"; required = true } ∷ [];
  scope = local;
  supported_os = systems;
  execute = 0;
}

abbrev start_up : List (Call ℕ)
start_up =
    registers "disk" (tool_of "disk_usage" [])
    ∷ registers "disk" (tool_of "blk" ("linux" ∷ []))
    ∷ registers "cgroup" (tool_of "cg" [])
    ∷ describes "cgroup" "cgroup" "linux only." local
    ∷ []

abbrev filled : ToolRegistry ℕ ℕ
filled = after new_tool_registry start_up

on_linux :
    list_tool_catalog_smart_for_os plain filled "linux"
    ≡ "[cgroup] linux only.\n  cg(path*) - reads\n[disk] disk\n  disk_usage(path*) - reads\n  blk(path*) - reads\n"
unfolding list_tool_catalog_smart_for_os after register register_category Dict.get Dict.put
    supports_os category_or_new tools_of
on_linux = refl

on_darwin :
    list_tool_catalog_smart_for_os plain filled "darwin"
    ≡ "[disk] disk\n  disk_usage(path*) - reads\n"
unfolding list_tool_catalog_smart_for_os after register register_category Dict.get Dict.put
    supports_os category_or_new tools_of
on_darwin = refl

listed_on_darwin :
    list_tools_for_os plain filled "disk" "darwin"
    ≡ "disk_usage - reads\n  path (string): where (required)\n"
unfolding list_tools_for_os after register register_category Dict.get Dict.put supports_os
    category_or_new tools_of
listed_on_darwin = refl

categories_on_darwin :
    list_categories_for_os plain filled "darwin" ≡ "disk (n tools) - disk diagnostics\n"
unfolding list_categories_for_os after register register_category Dict.get Dict.put supports_os
    category_or_new tools_of
categories_on_darwin = refl
