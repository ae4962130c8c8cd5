-- ===== src/Diagnose/Registry/Laws.antt =====
-- The index of tools by name and the categories hold the same tools.
use digcore.Base.{
  ℕ, ◌+◌, ◌≡◌, refl, sym, ap, ◌∙◌, false, String, Option, none, some, List, [], ◌∷◌, ◌++◌, str_eq,
  eq_iff, if◌then◌else◌, is_some, arith, Bool-cases, inl, inr,
}
use digcore.Base.Dict
use digcore.Base.Dict.{Dict}
use digcore.Diagnose.Registry.{
  ToolScope, DiagnoseTool, ToolCategory, ToolRegistry, category_or_new, with_tool, register,
  tools_of, name_of, register_category, get_tool, new_tool_registry,
}

module _ {ℓ} {F : Type ℓ} where
  -- How many tools of a list, and of all categories, have a name.
  unfoldable pub named : String → List (DiagnoseTool F) → ℕ
  named n [] = 0
  named n (t ∷ ts) = (if str_eq t.name n then 1 else 0) + named n ts

  unfoldable pub listed : String → Dict (ToolCategory F) → ℕ
  unfolding named
  listed n [] = 0
  listed n ((k, cat) ∷ d) = named n cat.tools + listed n d

  named-append :
      (n : String) (ts us : List (DiagnoseTool F)) → named n (ts ++ us) ≡ named n ts + named n us
  unfolding named
  named-append n [] us = omega arith
  named-append n (t ∷ ts) us = omega (arith, named-append n ts us)

  listed-put :
      (n : String) (d : Dict (ToolCategory F)) (k : String) (cat : ToolCategory F)
      → listed n (Dict.put d k cat) + named n (tools_of (Dict.get d k))
        ≡ listed n d + named n cat.tools
  unfolding listed named tools_of Dict.get Dict.put
  listed-put n [] k cat = omega arith
  listed-put n ((j, c) ∷ d) k cat = elim (Bool-cases (str_eq j k)) [
    | inl same ↦ rw same (omega arith)
    | inr differ ↦ rw differ (omega (arith, listed-put n d k cat))
  ]

  tools_of-category_or_new :
      (o : Option (ToolCategory F)) (category : String) (tool : DiagnoseTool F)
      → (category_or_new o category tool).tools ≡ tools_of o
  unfolding tools_of category_or_new
  tools_of-category_or_new none category tool = refl
  tools_of-category_or_new (some cat) category tool = refl

  listed-with_tool :
      (n : String) (d : Dict (ToolCategory F)) (k : String) (tool : DiagnoseTool F)
      → listed n (Dict.put d k (with_tool (category_or_new (Dict.get d k) k tool) tool))
        ≡ listed n d + (if str_eq tool.name n then 1 else 0)
  unfolding named
  listed-with_tool n d k tool =
      let cat = category_or_new (Dict.get d k) k tool in
      omega (
        arith,
        listed-put n d k (with_tool cat tool),
        ap (named n) (tools_of-category_or_new (Dict.get d k) k tool),
        named-append n cat.tools (tool ∷ []),
      )

-- What plugins call at start-up.
pub data Call {ℓ} (F : Type ℓ) : Type ℓ where
  registers : String → DiagnoseTool F → Call F
  describes : String → String → String → ToolScope → Call F

module _ {ℓ} {F A : Type ℓ} where
  unfoldable pub after : ToolRegistry F A → List (Call F) → ToolRegistry F A
  after r [] = r
  after r (registers category tool ∷ calls) = after (register r category tool) calls
  after r (describes name plugin description scope ∷ calls) =
      after (register_category r name plugin description scope) calls

  -- A name that the index has stands in the categories once, and any other not at all; and the index
  -- leads from a name to a tool of that name.
  pub record IsValid (r : ToolRegistry F A) : Type ℓ where
    pub once : (n : String) → listed n r.categories ≡ (if is_some (get_tool r n) then 1 else 0)
    pub keyed : (n : String) (t : DiagnoseTool F) → get_tool r n ≡ some t → t.name ≡ n

  -- Register keeps the invariant.
  pub register-IsValid :
      (r : ToolRegistry F A) (category : String) (tool : DiagnoseTool F)
      → IsValid r
      → IsValid (register r category tool)
  unfolding register get_tool
  register-IsValid r category tool v =
      elim (Bool-cases (is_some (Dict.get r.tool_index tool.name))) [
        | inl old ↦ rw old v
        | inr new ↦ rw new (record {
          once = λ n. rw (Dict.get-put r.tool_index tool.name tool n) (counted n new);
          keyed = λ n t h. elim (Bool-cases (str_eq tool.name n)) [
            | inr other ↦ v.keyed n t (rw (Dict.get-put r.tool_index tool.name tool n, other) at h)
            | inl this ↦
                let e : tool ≡ t =
                  cc (rw (Dict.get-put r.tool_index tool.name tool n, this) at h) in
                ap (λ x. x.name) (sym e) ∙ (eq_iff tool.name n).0 this
          ];
        })
      ]
    where
      counted :
          (n : String)
          → is_some (Dict.get r.tool_index tool.name) ≡ false
          → listed n (
              Dict.put r.categories category
                (with_tool (category_or_new (Dict.get r.categories category) category tool) tool))
            ≡ (if is_some (if str_eq tool.name n then some tool else Dict.get r.tool_index n)
                then 1
                else 0)
      counted n new =
          let grow = listed-with_tool n r.categories category tool in
          elim (Bool-cases (str_eq tool.name n)) [
            | inl this ↦
                let unknown : is_some (Dict.get r.tool_index n) ≡ false =
                  rw ((eq_iff tool.name n).0 this) at new in
                let absent : listed n r.categories ≡ 0 =
                  v.once n ∙ ap (λ b. if b then 1 else 0) unknown in
                let more = rw this at grow in rw this (omega (arith, more, absent))
            | inr other ↦
                let none_more = rw other at grow in rw other (omega (arith, none_more) ∙ v.once n)
          ]

  -- RegisterCategory keeps the invariant.
  register_category-IsValid :
      (r : ToolRegistry F A) (name plugin description : String) (scope : ToolScope)
      → IsValid r
      → IsValid (register_category r name plugin description scope)
  unfolding register_category get_tool
  register_category-IsValid r name plugin description scope v = record {
    once = λ n.
        omega (
          arith,
          listed-put n r.categories name (record {
            name = name_of (Dict.get r.categories name) name;
            plugin = plugin;
            description = description;
            scope = scope;
            tools = tools_of (Dict.get r.categories name);
          }),
        )
        ∙ v.once n;
    keyed = v.keyed;
  }

  -- Whatever calls of Register and RegisterCategory plugins make, in whatever order, they keep that a
  -- name that Get finds stands in the categories exactly once and any other not at all, and that Get
  -- leads from a name to a tool of that name.
  pub after-IsValid :
      (r : ToolRegistry F A) (calls : List (Call F)) → IsValid r → IsValid (after r calls)
  unfolding after
  after-IsValid r [] v = v
  after-IsValid r (registers category tool ∷ calls) v =
      after-IsValid (register r category tool) calls (register-IsValid r category tool v)
  after-IsValid r (describes name plugin description scope ∷ calls) v =
      after-IsValid (register_category r name plugin description scope) calls
        (register_category-IsValid r name plugin description scope v)

  pub new_tool_registry-IsValid : IsValid (new_tool_registry {F = F} {A = A})
  unfolding listed get_tool Dict.get
  new_tool_registry-IsValid = record { once = λ n. refl; keyed = λ n t h. absurd (cc h) }
