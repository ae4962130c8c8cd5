-- ===== src/Diagnose/Catalog/Offers.antt =====
-- A tool that is offered on an operating system is one that ToolSupportedOn accepts there.
use digcore.Base.{
  ◌≤◌, ◌<◌, ◌≡◌, refl, ap, ◌∙◌, true, false, String, Option, none, some, List, [], ◌∷◌, ltb, str_eq,
  some_of, arith, Bool-cases, inl, inr, All, All-select, subst,
}
use text.Mathlib.TextPositions.{eq_refl}
use digcore.Base.Dict
use digcore.Base.Dict.{Dict}
use digcore.Diagnose.Registry.{
  DiagnoseTool, ToolCategory, ToolRegistry, supports_os, get_tool, tools_of,
}
use digcore.Diagnose.Registry.Laws.{named, listed, IsValid}
use digcore.Diagnose.Catalog.{
  Printer, category_supports_os, decided_by, supported_by, offered, by_plugin_for_os,
  tool_supported_on,
}
use digcore.Diagnose.Catalog.Laws.{Indexed, IsIndexed, AllIndexed-get}

module _ {ℓ} {F : Type ℓ} where
  some_of-named :
      (n : String) (ts : List (DiagnoseTool F))
      → some_of (λ t. str_eq t.name n) ts ≡ ltb 0 (named n ts)
  unfolding named
  some_of-named n [] = refl
  some_of-named n (t ∷ ts) = ground (arith, some_of-named n ts)

  named-le-listed :
      (n : String) (d : Dict (ToolCategory F)) (k : String)
      → named n (tools_of (Dict.get d k)) ≤ listed n d
  unfolding named listed Dict.get tools_of
  named-le-listed n [] k = omega arith
  named-le-listed n ((i, c) ∷ d) k = elim (Bool-cases (str_eq i k)) [
    | inl same ↦ rw same (omega arith)
    | inr other ↦ rw other (omega (arith, named-le-listed n d k))
  ]

  -- Where one category alone lists a name, it decides on the name's support.
  decided_by-get :
      (p : Printer) (n goos : String) (d : Dict (ToolCategory F)) (k : String)
      (cat : ToolCategory F)
      → Dict.get d k ≡ some cat
      → 0 < named n cat.tools
      → listed n d ≡ 1
      → decided_by p n goos d ≡ category_supports_os p cat goos
  unfolding decided_by listed Dict.get tools_of
  decided_by-get p n goos [] k cat g h one = cc
  decided_by-get p n goos ((i, c) ∷ d) k cat g h one = elim (Bool-cases (str_eq i k)) [
    | inl same ↦
        let e : c ≡ cat = cc (rw same at g) in
        let here : some_of (λ t. str_eq t.name n) c.tools ≡ true =
          some_of-named n c.tools ∙ ground (arith, ap (λ x. named n x.tools) e) in
        rw here (ap (λ x. category_supports_os p x goos) e)
    | inr other ↦
        let g' : Dict.get d k ≡ some cat = rw other at g in
        let more : named n cat.tools ≤ listed n d =
          omega (arith, named-le-listed n d k, ap (λ o. named n (tools_of o)) g') in
        let elsewhere : some_of (λ t. str_eq t.name n) c.tools ≡ false =
          some_of-named n c.tools ∙ ground arith in
        rw elsewhere (decided_by-get p n goos d k cat g' h (omega arith))
  ]

  -- Each tool of a list is named in any list that has as many tools of each name.
  All-named :
      (full ts : List (DiagnoseTool F))
      → ((n : String) → named n ts ≤ named n full)
      → All (λ t. 0 < named t.name full) ts
  unfolding named
  All-named full [] h = tt
  All-named full (t ∷ ts) h =
      (ground (arith, h t.name, eq_refl t.name), All-named full ts (λ n. omega (arith, h n)))

module _ {ℓ} {F A : Type ℓ} (p : Printer) (goos : String) (r : ToolRegistry F A) where
  -- A tool that ToolSupportedOn accepts, and that Get leads to.
  abbrev pub Accepted : DiagnoseTool F → Type ℓ
  Accepted t = (tool_supported_on p r t.name goos ≡ true) × (get_tool r t.name ≡ some t)

  supported-Accepted :
      (t : DiagnoseTool F) (k : String) (cat : ToolCategory F)
      → IsValid r
      → Dict.get r.categories k ≡ some cat
      → category_supports_os p cat goos ≡ true
      → 0 < named t.name cat.tools
      → Dict.get r.tool_index t.name ≡ some t
      → supports_os t goos ≡ true
      → Accepted t
  unfolding tool_supported_on supported_by get_tool
  supported-Accepted t k cat v g c n i s =
      let one : listed t.name r.categories ≡ 1 = v.once t.name ∙ rw i refl in
      (rw (i, s) (decided_by-get p t.name goos r.categories k cat g n one ∙ c), i)

  All-Accepted :
      (k : String) (cat : ToolCategory F) (ts : List (DiagnoseTool F))
      → IsValid r
      → Dict.get r.categories k ≡ some cat
      → category_supports_os p cat goos ≡ true
      → All (λ t. 0 < named t.name cat.tools) ts
      → Indexed r.tool_index ts
      → All (λ t. supports_os t goos ≡ true → Accepted t) ts
  All-Accepted k cat [] v g c n i = tt
  All-Accepted k cat (t ∷ ts) v g c (n, ns) (i, is) =
      (supported-Accepted t k cat v g c n i, All-Accepted k cat ts v g c ns is)

  offered-Accepted :
      (k : String) (o : Option (ToolCategory F))
      → IsValid r
      → IsIndexed r
      → Dict.get r.categories k ≡ o
      → All Accepted (offered p goos o)
  unfolding offered tools_of
  offered-Accepted k none v x g = tt
  offered-Accepted k (some cat) v x g = elim (Bool-cases (category_supports_os p cat goos)) [
    | inr closed ↦ rw closed tt
    | inl runs ↦
        let listed_here : Indexed r.tool_index cat.tools =
          subst (λ o. Indexed r.tool_index (tools_of o)) g
            (AllIndexed-get r.tool_index r.categories k x) in
        rw runs (
          All-select Accepted (λ t. supports_os t goos) cat.tools
            (All-Accepted k cat cat.tools v g runs
              (All-named cat.tools cat.tools (λ n. omega arith)) listed_here))
  ]

  -- In a registry that plugins filled, each tool that ByPluginForOS offers for an operating system is
  -- accepted there by ToolSupportedOn, and is the one that Get gives for its name.
  pub by_plugin_for_os-Accepted :
      (plugin : String) → IsValid r → IsIndexed r → All Accepted (by_plugin_for_os p r plugin goos)
  unfolding by_plugin_for_os
  by_plugin_for_os-Accepted plugin v x =
      offered-Accepted plugin (Dict.get r.categories plugin) v x refl
