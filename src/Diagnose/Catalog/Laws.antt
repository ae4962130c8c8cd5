-- ===== src/Diagnose/Catalog/Laws.antt =====
-- The tools of the categories are the tools of the index.
use digcore.Base.{
  ◌≡◌, refl, sym, ap, ◌∙◌, false, String, Option, none, some, List, [], ◌∷◌, ◌++◌, str_eq, eq_iff,
  if◌then◌else◌, is_some, Bool-cases, inl, inr, subst,
}
use text.Mathlib.TextPositions.{eq_refl}
use digcore.Base.Dict
use digcore.Base.Dict.{Dict}
use digcore.Diagnose.Registry.{
  ToolScope, DiagnoseTool, ToolCategory, ToolRegistry, category_or_new, with_tool, register,
  tools_of, name_of, register_category,
}
use digcore.Diagnose.Registry.Laws.{Call, registers, describes, after}

module _ {ℓ} {F : Type ℓ} where
  -- The index leads to each tool of a list, and of all categories, by its name.
  abbrev pub Indexed : Dict (DiagnoseTool F) → List (DiagnoseTool F) → Type ℓ
  Indexed index [] = Unit
  Indexed index (t ∷ ts) = (Dict.get index t.name ≡ some t) × Indexed index ts

  abbrev pub AllIndexed : Dict (DiagnoseTool F) → Dict (ToolCategory F) → Type ℓ
  AllIndexed index [] = Unit
  AllIndexed index ((k, cat) ∷ d) = Indexed index cat.tools × AllIndexed index d

  -- A new name in the index keeps what it leads to.
  Indexed-put :
      (index : Dict (DiagnoseTool F)) (tool : DiagnoseTool F) (ts : List (DiagnoseTool F))
      → is_some (Dict.get index tool.name) ≡ false
      → Indexed index ts
      → Indexed (Dict.put index tool.name tool) ts
  Indexed-put index tool [] new h = tt
  Indexed-put index tool (t ∷ ts) new (e, h) = (
    Dict.get-put index tool.name tool t.name ∙ elim (Bool-cases (str_eq tool.name t.name)) [
      | inl same ↦ cc (rw ((eq_iff tool.name t.name).0 same, e) at new)
      | inr other ↦ rw other e
    ],
    Indexed-put index tool ts new h,
  )

  AllIndexed-put :
      (index : Dict (DiagnoseTool F)) (tool : DiagnoseTool F) (d : Dict (ToolCategory F))
      → is_some (Dict.get index tool.name) ≡ false
      → AllIndexed index d
      → AllIndexed (Dict.put index tool.name tool) d
  AllIndexed-put index tool [] new h = tt
  AllIndexed-put index tool ((k, cat) ∷ d) new (t, h) =
      (Indexed-put index tool cat.tools new t, AllIndexed-put index tool d new h)

  Indexed-append :
      (index : Dict (DiagnoseTool F)) (ts us : List (DiagnoseTool F))
      → Indexed index ts
      → Indexed index us
      → Indexed index (ts ++ us)
  Indexed-append index [] us h g = g
  Indexed-append index (t ∷ ts) us (e, h) g = (e, Indexed-append index ts us h g)

  pub AllIndexed-get :
      (index : Dict (DiagnoseTool F)) (d : Dict (ToolCategory F)) (k : String)
      → AllIndexed index d
      → Indexed index (tools_of (Dict.get d k))
  unfolding Dict.get tools_of
  AllIndexed-get index [] k h = tt
  AllIndexed-get index ((i, cat) ∷ d) k (t, h) = elim (Bool-cases (str_eq i k)) [
    | inl same ↦ rw same t
    | inr other ↦ rw other (AllIndexed-get index d k h)
  ]

  AllIndexed-entry :
      (index : Dict (DiagnoseTool F)) (d : Dict (ToolCategory F)) (k : String)
      (cat : ToolCategory F)
      → AllIndexed index d
      → Indexed index cat.tools
      → AllIndexed index (Dict.put d k cat)
  unfolding Dict.put
  AllIndexed-entry index [] k cat h t = (t, tt)
  AllIndexed-entry index ((i, c) ∷ d) k cat (u, h) t = elim (Bool-cases (str_eq i k)) [
    | inl same ↦ rw same (t, h)
    | inr other ↦ rw other (u, AllIndexed-entry index d k cat h t)
  ]

  category_or_new-tools :
      (o : Option (ToolCategory F)) (category : String) (tool : DiagnoseTool F)
      → (category_or_new o category tool).tools ≡ tools_of o
  unfolding tools_of category_or_new
  category_or_new-tools none category tool = refl
  category_or_new-tools (some cat) category tool = refl

module _ {ℓ} {F A : Type ℓ} where
  abbrev pub IsIndexed : ToolRegistry F A → Type ℓ
  IsIndexed r = AllIndexed r.tool_index r.categories

  register-IsIndexed :
      (r : ToolRegistry F A) (category : String) (tool : DiagnoseTool F)
      → IsIndexed r
      → IsIndexed (register r category tool)
  unfolding register
  register-IsIndexed r category tool h =
      let cat = category_or_new (Dict.get r.categories category) category tool in
      let index = Dict.put r.tool_index tool.name tool in
      elim (Bool-cases (is_some (Dict.get r.tool_index tool.name))) [
        | inl old ↦ rw old h
        | inr new ↦
            let kept = AllIndexed-put r.tool_index tool r.categories new h in
            let same = category_or_new-tools (Dict.get r.categories category) category tool in
            let before : Indexed index cat.tools =
              subst (Indexed index) (sym same) (AllIndexed-get index r.categories category kept) in
            let self : Dict.get index tool.name ≡ some tool =
              Dict.get-put r.tool_index tool.name tool tool.name
              ∙ ap (λ b. if b then some tool else Dict.get r.tool_index tool.name)
                  (eq_refl tool.name) in
            rw new (
              AllIndexed-entry index r.categories category (with_tool cat tool) kept
                (Indexed-append index cat.tools (tool ∷ []) before (self, tt)))
      ]

  register_category-IsIndexed :
      (r : ToolRegistry F A) (name plugin description : String) (scope : ToolScope)
      → IsIndexed r
      → IsIndexed (register_category r name plugin description scope)
  unfolding register_category
  register_category-IsIndexed r name plugin description scope h =
      AllIndexed-entry r.tool_index r.categories name
        (record {
          name = name_of (Dict.get r.categories name) name;
          plugin = plugin;
          description = description;
          scope = scope;
          tools = tools_of (Dict.get r.categories name);
        })
        h (AllIndexed-get r.tool_index r.categories name h)

  -- Whatever calls of Register and RegisterCategory plugins make, they keep that the index leads to
  -- each tool of each category by its name.
  pub after-IsIndexed :
      (r : ToolRegistry F A) (calls : List (Call F)) → IsIndexed r → IsIndexed (after r calls)
  unfolding after
  after-IsIndexed r [] h = h
  after-IsIndexed r (registers category tool ∷ calls) h =
      after-IsIndexed (register r category tool) calls (register-IsIndexed r category tool h)
  after-IsIndexed r (describes name plugin description scope ∷ calls) h =
      after-IsIndexed (register_category r name plugin description scope) calls
        (register_category-IsIndexed r name plugin description scope h)
