-- ===== src/Diagnose/Catalog.antt =====
-- diagnose/registry.go: what the registry offers on an operating system, and the lists of tools that the
-- model reads.
pub mod Laws
pub mod Offers
mod Tests
use Prim.Native.String.{compare}
use text.Mathlib.Text.{find?, starts_with, is_le}
use digcore.Base.{
  ℕ, zero, suc, ◌+◌, Bool, true, false, String, append, Option, none, some, List, [], ◌∷◌, str_eq,
  ◌==◌, ◌||◌, if◌then◌else◌, is_some, length, select, some_of, map,
}
use digcore.Base.Dict
use digcore.Base.Dict.{Dict}
use digcore.Engine.Clean.{sort_strings}
use digcore.Diagnose.Registry.{
  ToolParam, DiagnoseTool, ToolCategory, ToolRegistry, supports_os, get_tool, tools_of,
}

-- The texts that Go's library makes: strings.ToLower, and `%d`, `%q` and `%-12s` of fmt.
pub record Printer : Type 0 where
  pub to_lower : String → String
  pub decimal : ℕ → String
  pub quote : String → String
  pub pad_12 : String → String

-- strings.Contains
abbrev pub contains : String → String → Bool
contains s t = is_some (find? s t)

-- The texts of a list, one after another.
unfoldable pub concat : List String → String
concat [] = ""
concat (s ∷ ss) = append s (concat ss)

-- strings.Join
unfoldable pub join : String → List String → String
join sep [] = ""
join sep (s ∷ []) = s
join sep (s ∷ (t ∷ ss)) = append s (append sep (join sep (t ∷ ss)))

-- formatParamsCompact
unfoldable pub format_params_compact : List ToolParam → String
unfolding join
format_params_compact params =
    join ", " (map (λ p. if p.required then append p.name "*" else p.name) params)

-- A parameter's line in ListToolsForOS.
abbrev pub param_line : ToolParam → String
param_line p = concat (
    "  "
    ∷ p.name
    ∷ " ("
    ∷ p.kind
    ∷ "): "
    ∷ p.description
    ∷ (if p.required then " (required)" else "")
    ∷ "\n"
    ∷ [])

abbrev pub or_else : String → String → String
or_else desc other = if str_eq desc "" then other else desc

module _ {ℓ} {F : Type ℓ} where
  -- categorySupportsOS
  unfoldable pub category_supports_os : Printer → ToolCategory F → String → Bool
  category_supports_os p cat goos =
      let desc = p.to_lower cat.description in
      if contains desc "linux only."
      then str_eq goos "linux"
      else if contains desc "darwin only." || contains desc "macos only."
      then str_eq goos "darwin"
      else if contains desc "windows only."
      then str_eq goos "windows"
      else true

  -- The tools of a category that an operating system supports.
  abbrev pub supported_tools : ToolCategory F → String → List (DiagnoseTool F)
  supported_tools cat goos = select (λ t. supports_os t goos) cat.tools

  -- What ByPluginForOS gives for the category stored under the plugin's name.
  unfoldable pub offered : Printer → String → Option (ToolCategory F) → List (DiagnoseTool F)
  unfolding category_supports_os
  offered p goos none = []
  offered p goos (some cat) =
      if category_supports_os p cat goos then supported_tools cat goos else []

  -- The loops of ToolSupportedOn: the first category in the map's order that has a tool of the name.
  unfoldable pub decided_by : Printer → String → String → Dict (ToolCategory F) → Bool
  unfolding category_supports_os
  decided_by p name goos [] = true
  decided_by p name goos ((k, cat) ∷ d) =
      if some_of (λ t. str_eq t.name name) cat.tools
      then category_supports_os p cat goos
      else decided_by p name goos d

  -- ToolSupportedOn, for what the index holds.
  unfoldable pub supported_by :
      Printer → Dict (ToolCategory F) → Option (DiagnoseTool F) → String → String → Bool
  unfolding decided_by
  supported_by p categories none name goos = false
  supported_by p categories (some tool) name goos =
      if supports_os tool goos then decided_by p name goos categories else false

  -- sort.Slice by Name
  unfoldable pub insert_by_name : ToolCategory F → List (ToolCategory F) → List (ToolCategory F)
  insert_by_name c [] = c ∷ []
  insert_by_name c (d ∷ ds) =
      if is_le (compare c.name d.name) then c ∷ d ∷ ds else d ∷ insert_by_name c ds

  unfoldable pub sort_by_name : List (ToolCategory F) → List (ToolCategory F)
  unfolding insert_by_name
  sort_by_name [] = []
  sort_by_name (c ∷ cs) = insert_by_name c (sort_by_name cs)

  -- The lines of a tool in ListToolsForOS and in the catalog.
  unfoldable pub tool_lines : DiagnoseTool F → String
  unfolding concat
  tool_lines t =
      concat (concat (t.name ∷ " - " ∷ t.description ∷ "\n" ∷ []) ∷ map param_line t.parameters)

  unfoldable pub catalog_line : DiagnoseTool F → String
  unfolding concat format_params_compact
  catalog_line t =
      let params = format_params_compact t.parameters in
      if str_eq params ""
      then concat ("  " ∷ t.name ∷ "() - " ∷ t.description ∷ "\n" ∷ [])
      else concat ("  " ∷ t.name ∷ "(" ∷ params ∷ ") - " ∷ t.description ∷ "\n" ∷ [])

  -- A category in the catalog of ListToolCatalogSmartForOS.
  unfoldable pub catalog_entry : Printer → String → ToolCategory F → String
  unfolding concat catalog_line category_supports_os
  catalog_entry p goos cat =
      let desc = or_else cat.description cat.name in
      let filtered = supported_tools cat goos in
      if not_offered p goos cat
      then ""
      else if starts_with cat.name "mcp:"
      then concat (
          "["
          ∷ cat.name
          ∷ "] ("
          ∷ p.decimal (length filtered)
          ∷ " tools) "
          ∷ desc
          ∷ " — 使用前先 list_tools(category=\""
          ∷ cat.name
          ∷ "\")\n"
          ∷ [])
      else concat (concat ("[" ∷ cat.name ∷ "] " ∷ desc ∷ "\n" ∷ []) ∷ map catalog_line filtered)
    where
      not_offered : Printer → String → ToolCategory F → Bool
      not_offered p goos cat =
          if category_supports_os p cat goos then length (supported_tools cat goos) == 0 else true

  -- A category in the list of ListCategoriesForOS.
  unfoldable pub category_line : Printer → String → ToolCategory F → String
  unfolding concat
  category_line p goos cat =
      let count = length (supported_tools cat goos) in
      let desc = or_else cat.description (append cat.name " diagnostics") in
      if count == 0
      then ""
      else concat (p.pad_12 cat.name ∷ " (" ∷ p.decimal count ∷ " tools) - " ∷ desc ∷ "\n" ∷ [])

  -- What ListToolsForOS gives for the category found.
  unfoldable pub tools_text : Printer → String → String → Option (ToolCategory F) → String
  unfolding concat tool_lines category_supports_os
  tools_text p category goos none = concat ("unknown category: " ∷ p.quote category ∷ [])
  tools_text p category goos (some cat) =
      let nothing =
        concat ("no tools in category " ∷ p.quote category ∷ " support os=" ∷ p.quote goos ∷ []) in
      if category_supports_os p cat goos
      then if length (supported_tools cat goos) == 0
        then nothing
        else concat (map tool_lines (supported_tools cat goos))
      else nothing

  -- The categories of some names, which are keys of the map.
  unfoldable pub found : Dict (ToolCategory F) → List String → List (ToolCategory F)
  unfolding Dict.get
  found d [] = []
  found d (k ∷ ks) = elim (Dict.get d k) [ none ↦ found d ks | some cat ↦ cat ∷ found d ks ]

module _ {ℓ} {F A : Type ℓ} where
  -- ByPluginForOS
  unfoldable pub by_plugin_for_os :
      Printer → ToolRegistry F A → String → String → List (DiagnoseTool F)
  unfolding Dict.get offered
  by_plugin_for_os p r plugin goos = offered p goos (Dict.get r.categories plugin)

  -- ToolSupportedOn
  unfoldable pub tool_supported_on : Printer → ToolRegistry F A → String → String → Bool
  unfolding get_tool supported_by
  tool_supported_on p r name goos = supported_by p r.categories (get_tool r name) name goos

  -- ListToolCatalogSmartForOS
  unfoldable pub list_tool_catalog_smart_for_os : Printer → ToolRegistry F A → String → String
  unfolding concat catalog_entry sort_by_name
  list_tool_catalog_smart_for_os p r goos =
      concat (map (catalog_entry p goos) (sort_by_name (map (λ e. e.1) r.categories)))

  -- ListCategoriesForOS
  unfoldable pub list_categories_for_os : Printer → ToolRegistry F A → String → String
  unfolding concat category_line found sort_strings category_supports_os
  list_categories_for_os p r goos =
      let open_entries = select (λ e. category_supports_os p e.1 goos) r.categories in
      concat (
        map (category_line p goos)
          (found r.categories (sort_strings (map (λ e. e.0) open_entries))))

  -- ListToolsForOS
  unfoldable pub list_tools_for_os : Printer → ToolRegistry F A → String → String → String
  unfolding Dict.get tools_text
  list_tools_for_os p r category goos = tools_text p category goos (Dict.get r.categories category)

  -- Categories and ToolCount
  unfoldable pub categories : ToolRegistry F A → List String
  unfolding sort_strings
  categories r = sort_strings (map (λ e. e.0) r.categories)

  unfoldable pub tool_count : ToolRegistry F A → ℕ
  tool_count r = length r.tool_index

  -- CategoriesWithTools
  unfoldable pub categories_with_tools : ToolRegistry F A → List (ToolCategory F)
  unfolding sort_by_name
  categories_with_tools r = sort_by_name (map (λ e. e.1) r.categories)

  -- HasAccessorFactory
  unfoldable pub has_accessor_factory : ToolRegistry F A → String → Bool
  unfolding Dict.get
  has_accessor_factory r plugin = is_some (Dict.get r.accessor_factory plugin)

module _ {ℓ} {F : Type ℓ} where
  -- A category in ListToolCatalogSmart and, but for `mcp:`, in ListAllTools.
  unfoldable pub full_entry : ToolCategory F → String
  unfolding concat catalog_line
  full_entry cat =
      let desc = or_else cat.description cat.name in
      concat (concat ("[" ∷ cat.name ∷ "] " ∷ desc ∷ "\n" ∷ []) ∷ map catalog_line cat.tools)

  unfoldable pub smart_entry : Printer → ToolCategory F → String
  unfolding concat full_entry
  smart_entry p cat =
      let desc = or_else cat.description cat.name in
      if starts_with cat.name "mcp:"
      then concat (
          "["
          ∷ cat.name
          ∷ "] ("
          ∷ p.decimal (length cat.tools)
          ∷ " tools) "
          ∷ desc
          ∷ " — 使用前先 list_tools(category=\""
          ∷ cat.name
          ∷ "\")\n"
          ∷ [])
      else full_entry cat

  -- A category in ListCategories, and the tools of ListTools.
  unfoldable pub plain_line : Printer → ToolCategory F → String
  unfolding concat
  plain_line p cat =
      let desc = or_else cat.description (append cat.name " diagnostics") in
      concat
        (p.pad_12 cat.name ∷ " (" ∷ p.decimal (length cat.tools) ∷ " tools) - " ∷ desc ∷ "\n" ∷ [])

  unfoldable pub all_tools_text : Printer → String → Option (ToolCategory F) → String
  unfolding concat tool_lines
  all_tools_text p category none = concat ("unknown category: " ∷ p.quote category ∷ [])
  all_tools_text p category (some cat) = concat (map tool_lines cat.tools)

module _ {ℓ} {F A : Type ℓ} where
  -- ListCategories
  unfoldable pub list_categories : Printer → ToolRegistry F A → String
  unfolding concat plain_line found sort_strings
  list_categories p r =
      concat (map (plain_line p) (found r.categories (sort_strings (map (λ e. e.0) r.categories))))

  -- ListTools
  unfoldable pub list_tools : Printer → ToolRegistry F A → String → String
  unfolding Dict.get all_tools_text
  list_tools p r category = all_tools_text p category (Dict.get r.categories category)

  -- ListAllTools
  unfoldable pub list_all_tools : ToolRegistry F A → String
  unfolding concat full_entry sort_by_name
  list_all_tools r = concat (map full_entry (sort_by_name (map (λ e. e.1) r.categories)))

  -- ListToolCatalogSmart
  unfoldable pub list_tool_catalog_smart : Printer → ToolRegistry F A → String
  unfolding concat smart_entry sort_by_name
  list_tool_catalog_smart p r =
      concat (map (smart_entry p) (sort_by_name (map (λ e. e.1) r.categories)))
