-- ===== src/Diagnose/Toolset/Tests.antt =====
-- The definitions of a tool with two parameters, one of them required.
use digcore.Base.{ℕ, ◌≡◌, refl, some, [], ◌∷◌, true, false}
use digcore.Base.Dict
use digcore.Diagnose.Registry.{local, DiagnoseTool, ToolRegistry, new_tool_registry}
use digcore.Diagnose.Registry.Laws.{registers, after}
use digcore.Diagnose.Catalog.{Printer}
use digcore.Diagnose.Toolset.{diagnose_tool_to_ai, text_property}

abbrev plain : Printer
plain = record { to_lower = λ s. s; decimal = λ n. "n"; quote = λ s. s; pad_12 = λ s. s }

abbrev usage : DiagnoseTool ℕ
usage = record {
  name = "disk_usage";
  description = "reads";
  parameters =
      record { name = "path"; kind = "string"; description = "where"; required = true }
      ∷ record { name = "depth"; kind = "int"; description = "how deep"; required = false }
      ∷ [];
  scope = local;
  supported_os = [];
  execute = 0;
}

abbrev filled : ToolRegistry ℕ ℕ
filled = after new_tool_registry (registers "disk" usage ∷ [])

converted : diagnose_tool_to_ai usage ≡ record {
  name = "disk_usage";
  description = "reads";
  parameters = some (record {
    properties =
        ("path", text_property "where")
        ∷ ("depth", record { kind = "int"; description = "how deep" })
        ∷ [];
    required = "path" ∷ [];
  });
}
unfolding diagnose_tool_to_ai Dict.put
converted = refl
