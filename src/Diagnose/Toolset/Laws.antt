-- ===== src/Diagnose/Toolset/Laws.antt =====
-- The parameters that a definition requires are among its properties.
use digcore.Base.{
  ◌≡◌, refl, ap, ◌∙◌, true, String, Option, none, some, List, [], ◌∷◌, ◌++◌, All, All-append,
  is_some, str_eq, length, ltb, if◌then◌else◌, if-branch, map, Bool-cases, inl, inr,
}
use text.Mathlib.TextPositions.{eq_refl}
use digcore.Base.Dict
use digcore.Base.Dict.{Dict}
use digcore.Diagnose.Registry.{ToolParam, DiagnoseTool, ToolRegistry}
use digcore.Diagnose.Catalog.{Printer, by_plugin_for_os}
use digcore.Diagnose.Toolset.{
  Property, Parameters, AiTool, param_loop, diagnose_tool_to_ai, meta_tools, build_tool_set,
}

abbrev Required : Dict Property → List String → Type 0
Required d names = All (λ name. is_some (Dict.get d name) ≡ true) names

-- A property more keeps what is required.
Required-put :
    (d : Dict Property) (k : String) (v : Property) (names : List String)
    → Required d names
    → Required (Dict.put d k v) names
Required-put d k v [] h = tt
Required-put d k v (name ∷ names) (e, h) = (
  ap is_some (Dict.get-put d k v name)
      ∙ elim (Bool-cases (str_eq k name)) [ inl same ↦ rw same refl | inr other ↦ rw other e ],
  Required-put d k v names h,
)

-- A definition without parameters, or one whose required parameters all have a property.
abbrev pub Complete : Option Parameters → Type 0
Complete none = Unit
Complete (some ps) = Required ps.properties ps.required

param_loop-Complete :
    (ps : Parameters) (params : List ToolParam)
    → Complete (some ps)
    → Complete (some (param_loop ps params))
unfolding param_loop
param_loop-Complete ps [] h = h
param_loop-Complete ps (p ∷ rest) h =
    let v : Property = record { kind = p.kind; description = p.description } in
    let d = Dict.put ps.properties p.name v in
    let kept = Required-put ps.properties p.name v ps.required h in
    let here : is_some (Dict.get d p.name) ≡ true =
      ap is_some (Dict.get-put ps.properties p.name v p.name)
      ∙ ap (λ b. is_some (if b then some v else Dict.get ps.properties p.name)) (eq_refl p.name) in
    param_loop-Complete
      (record {
        properties = d;
        required = if p.required then ps.required ++ (p.name ∷ []) else ps.required;
      })
      rest
      (if-branch (Required d) p.required
        (All-append (λ name. is_some (Dict.get d name) ≡ true) ps.required (p.name ∷ []) kept
          (here, tt))
        kept)

abbrev pub AllComplete : List AiTool → Type 0
AllComplete tools = All (λ t. Complete t.parameters) tools

module _ {F : Type 0} where
  converted-Complete : (ts : List (DiagnoseTool F)) → AllComplete (map diagnose_tool_to_ai ts)
  unfolding diagnose_tool_to_ai
  converted-Complete [] = tt
  converted-Complete (t ∷ ts) = (
    if-branch Complete (ltb 0 (length t.parameters))
        (param_loop-Complete (record { properties = []; required = [] }) t.parameters tt) tt,
    converted-Complete ts,
  )

module _ {F A : Type 0} where
  -- In the definitions of tools that a diagnosis sends to the model, each required parameter has a
  -- property.
  pub build_tool_set-AllComplete :
      (p : Printer) (r : ToolRegistry F A) (plugin runtime_os : String)
      → AllComplete (build_tool_set p r plugin runtime_os).0
  unfolding build_tool_set meta_tools Dict.get
  build_tool_set-AllComplete p r plugin runtime_os =
      let direct = by_plugin_for_os p r plugin runtime_os in
      All-append (λ t. Complete t.parameters) (map diagnose_tool_to_ai direct) meta_tools
        (converted-Complete direct) ((refl, tt), ((refl, tt), tt))
