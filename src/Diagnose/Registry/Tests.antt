-- ===== src/Diagnose/Registry/Tests.antt =====
-- A registry with tools of two plugins.
use digcore.Base.{ℕ, String, List, [], ◌∷◌}
use digcore.Diagnose.Registry.{local, DiagnoseTool}
use digcore.Diagnose.Registry.Laws.{Call, registers, describes}

abbrev tool_of : String → DiagnoseTool ℕ
tool_of name = record {
  name = name;
  description = "";
  parameters = [];
  scope = local;
  supported_os = [];
  execute = 0;
}

abbrev start_up : List (Call ℕ)
start_up =
    registers "disk" (tool_of "disk_usage")
    ∷ describes "disk" "disk" "disk tools" local
    ∷ registers "mem" (tool_of "disk_usage")
    ∷ []
