-- ===== src/Plugins/Indexed.antt =====
-- oxcer-core/src/plugins/capability_registry.rs: a registry finds what a scan of its capabilities finds.
use oxcer_agent.Prelude.{
  ℕ, ◌+◌, ◌≡◌, refl, sym, ap, ◌∙◌, List, [], ◌∷◌, ◌++◌, any, push, length, if◌then◌else◌,
  Bool-cases, inl, inr, arith,
}
use oxcer_agent.Text.{Text, Casing}
use oxcer_agent.Plugins.{ToolCapability, push_category, push_tags, tag_list}
use oxcer_agent.Plugins.Registry.{
  CapabilityRegistry, new, indices_of, has_id, register, register_all, tools_at, for_category,
  for_tag,
}
use oxcer_agent.Plugins.Positions.{
  times, positions, copies, in_category, with_tag, indices_of-push_category, indices_of-push_tags,
  positions-push, tools_at-positions,
}

-- Both indexes have, under each key, the places of the capabilities that are filed under it, in order.
pub record IsIndexed (cs : Casing) (reg : CapabilityRegistry) : Type 0 where
  pub categories :
      (key : Text) → indices_of key reg.by_category ≡ positions (in_category cs key) 0 reg.tools
  pub tags : (key : Text) → indices_of key reg.by_tag ≡ positions (with_tag cs key) 0 reg.tools

-- The abstract registry: the capabilities alone, the first of each id.
abbrev pub add_new : ToolCapability → List ToolCapability → List ToolCapability
add_new cap tools = if any (has_id cap.id) tools then tools else push tools cap

abbrev pub add_all_new : List ToolCapability → List ToolCapability → List ToolCapability
add_all_new [] tools = tools
add_all_new (cap ∷ caps) tools = add_all_new caps (add_new cap tools)

module _ (cs : Casing) where
  pub new-IsIndexed : IsIndexed cs new
  unfolding indices_of
  new-IsIndexed = record { categories = λ key. refl; tags = λ key. refl }

  -- The registry with one capability more.
  filed : ToolCapability → CapabilityRegistry → CapabilityRegistry
  filed cap reg = record {
    tools = push reg.tools cap;
    by_category = push_category cs cap.category_hint (length reg.tools) reg.by_category;
    by_tag = push_tags cs (tag_list cap.tags) (length reg.tools) reg.by_tag;
  }

  filed-IsIndexed :
      (cap : ToolCapability) (reg : CapabilityRegistry)
      → IsIndexed cs reg
      → IsIndexed cs (filed cap reg)
  unfolding filed
  filed-IsIndexed cap reg h = record {
    categories = λ key.
        indices_of-push_category cs key cap.category_hint (length reg.tools) reg.by_category
        ∙ ap (λ is. is ++ times (in_category cs key cap) (length reg.tools)) (h.categories key)
        ∙ ap (λ n. positions (in_category cs key) 0 reg.tools ++ times (in_category cs key cap) n)
            (from_zero (length reg.tools))
        ∙ sym (positions-push (in_category cs key) 0 reg.tools cap);
    tags = λ key.
        indices_of-push_tags cs key (tag_list cap.tags) (length reg.tools) reg.by_tag
        ∙ ap (λ is. is ++ times (with_tag cs key cap) (length reg.tools)) (h.tags key)
        ∙ ap (λ n. positions (with_tag cs key) 0 reg.tools ++ times (with_tag cs key cap) n)
            (from_zero (length reg.tools))
        ∙ sym (positions-push (with_tag cs key) 0 reg.tools cap);
  }
    where
      from_zero : (n : ℕ) → n ≡ 0 + n
      from_zero n = omega arith

  -- Registering keeps the indexes right, and adds the capability if its id is new.
  register-IsIndexed :
      (cap : ToolCapability) (reg : CapabilityRegistry)
      → IsIndexed cs reg
      → IsIndexed cs (register cs cap reg) × ((register cs cap reg).tools ≡ add_new cap reg.tools)
  unfolding register filed
  register-IsIndexed cap reg h = elim (Bool-cases (any (has_id cap.id) reg.tools)) [
    | inl e ↦ rw e (h, refl)
    | inr e ↦ rw e (filed-IsIndexed cap reg h, refl)
  ]

  pub register_all-IsIndexed :
      (caps : List ToolCapability) (reg : CapabilityRegistry)
      → IsIndexed cs reg
      → IsIndexed cs (register_all cs caps reg)
        × ((register_all cs caps reg).tools ≡ add_all_new caps reg.tools)
  unfolding register_all
  register_all-IsIndexed [] reg h = (h, refl)
  register_all-IsIndexed (cap ∷ caps) reg h =
      let (kept, added) = register-IsIndexed cap reg h in
      let (kept_all, added_all) = register_all-IsIndexed caps (register cs cap reg) kept in
      (kept_all, added_all ∙ ap (add_all_new caps) added)

  module _ (reg : CapabilityRegistry) (h : IsIndexed cs reg) where
    pub for_category-copies :
        (category : Text)
        → for_category cs reg category
          ≡ copies (in_category cs (cs.to_lowercase category)) reg.tools
    unfolding for_category
    for_category-copies category =
        ap (tools_at reg.tools) (h.categories (cs.to_lowercase category))
        ∙ tools_at-positions (in_category cs (cs.to_lowercase category)) reg.tools

    pub for_tag-copies :
        (tag : Text) → for_tag cs reg tag ≡ copies (with_tag cs (cs.to_lowercase tag)) reg.tools
    unfolding for_tag
    for_tag-copies tag =
        ap (tools_at reg.tools) (h.tags (cs.to_lowercase tag))
        ∙ tools_at-positions (with_tag cs (cs.to_lowercase tag)) reg.tools
