-- ===== src/Policy/Merge/Tools/Added.antt =====
-- Which tools the effective table has: those of the base and those that the overlay adds.
use paybond_kit_python.Prelude.{
  String, ◌≡◌, refl, ◌∙◌, Option, none, some, [], ◌∷◌, arith, or_else, eq_iff, if◌then◌else◌,
  str_eq,
}
use paybond_kit_python.Prelude.Dict.{Dict, lookup, lookup-insert, lookup-nil, lookup-cons}
use paybond_kit_python.Policy.Schema.{ToolEntry, ToolOverride}
use paybond_kit_python.Policy.Merge.Report.{Merged, IsClean, bind-IsClean_left, bind-IsClean_right}
use paybond_kit_python.Policy.Merge.Tools.{
  override_found, override_tools, append_found, append_tools, clone_tool_entry,
}

module _ (k : String) where
  lookup-override_found :
      (t : String) (patch : ToolOverride) (tools : Dict ToolEntry) (o : Option ToolEntry)
      → lookup t tools ≡ o
      → lookup k tools ≡ none
      → lookup k (override_found t patch tools o).value ≡ none
  unfolding override_found
  lookup-override_found t patch tools none e h = h
  lookup-override_found t patch tools (some old) e h = rw lookup-insert (ground (arith, eq_iff t k))

  -- An override adds no tool.
  pub lookup-override_tools :
      (patches : Dict ToolOverride) (tools : Dict ToolEntry)
      → lookup k tools ≡ none
      → lookup k (override_tools patches tools).value ≡ none
  unfolding override_tools
  lookup-override_tools [] tools h = h
  lookup-override_tools ((t, patch) ∷ rest) tools h =
      lookup-override_tools rest (override_found t patch tools (lookup t tools)).value
        (lookup-override_found t patch tools (lookup t tools) refl h)

  lookup-append_found :
      (t : String) (e : ToolEntry) (tools : Dict ToolEntry) (o : Option ToolEntry)
      → lookup t tools ≡ o
      → IsClean (append_found t e tools o)
      → lookup k (append_found t e tools o).value
        ≡ or_else (lookup k tools) (if str_eq t k then some e else none)
  unfolding append_found clone_tool_entry
  lookup-append_found t e tools none p h = rw lookup-insert (ground (arith, eq_iff t k))
  lookup-append_found t e tools (some old) p h = cc

  or_else-if :
      (a b : Option ToolEntry) (t : String) (e : ToolEntry)
      → or_else (or_else a (if str_eq t k then some e else none)) b
        ≡ or_else a (if str_eq t k then some e else b)
  or_else-if a b t e = ground arith

  -- Without denials a key holds what the table had, or else what the overlay adds.
  pub lookup-append_tools :
      (added tools : Dict ToolEntry)
      → IsClean (append_tools added tools)
      → lookup k (append_tools added tools).value ≡ or_else (lookup k tools) (lookup k added)
  unfolding append_tools
  lookup-append_tools [] tools h = rw lookup-nil (or_else-none (lookup k tools))
    where
      or_else-none : (a : Option ToolEntry) → a ≡ or_else a none
      or_else-none none = refl
      or_else-none (some a) = refl
  lookup-append_tools ((t, e) ∷ rest) tools h =
      let m : Merged (Dict ToolEntry) = append_found t e tools (lookup t tools) in
      let clean : IsClean m = bind-IsClean_left m (append_tools rest) h in
      rw lookup-cons (
        lookup-append_tools rest m.value (bind-IsClean_right m (append_tools rest) h)
        ∙ rw (lookup-append_found t e tools (lookup t tools) refl clean)
            (or_else-if (lookup k tools) (lookup k rest) t e))
