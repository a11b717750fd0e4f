-- ===== src/Plugins/Agrees.antt =====
-- oxcer-core/src/plugins/capability_registry.rs: a registry does what the list of its capabilities does.
use mathlib.Core.List.{Memᴰ}
use mathlib.Core.Path.{subst}
use oxcer_agent.Prelude.{ℕ, ◌≡◌, sym, ap, ◌∙◌, ◌↔◌, List, [], inl, inr}
use oxcer_agent.Text.{Text, Casing, trim}
use oxcer_agent.Plugins.{ToolCapability}
use oxcer_agent.Plugins
use oxcer_agent.Plugins.Laws.{matching_ids_for_task-NamedBy}
use oxcer_agent.Plugins.Registry
use oxcer_agent.Plugins.Registry.{
  Index, CapabilityRegistry, new, indices_of, register_all, tools_at, insert_named, for_category,
  for_tag,
}
use oxcer_agent.Plugins.Positions.{positions, copies, in_category, with_tag, tools_at-positions}
use oxcer_agent.Plugins.Indexed.{
  IsIndexed, new-IsIndexed, register_all-IsIndexed, add_all_new, for_category-copies,
  for_tag-copies,
}
use oxcer_agent.Plugins.Unique.{IsUnique, HasUnique, new-HasUnique, register_all-HasUnique}
use oxcer_agent.Plugins.Matches.{InEntry, Memᴰ-insert_named, InEntry-UnderKey, UnderKey-InEntry}
use oxcer_agent.Plugins.Named.{NamedKey, Memᴰ-copies, is_named-NamedKey}

-- A capability with the id that is filed under a key that the task names.
abbrev FiledUnderNamed : Text → (Text → ToolCapability → ℕ) → List ToolCapability → Text → Type 0
FiledUnderNamed task_lower count tools id =
    (cap : ToolCapability) × Memᴰ cap tools
    × (id ≡ cap.id)
    × NamedKey task_lower (λ key. count key cap)

module _ (task_lower : Text) (tools : List ToolCapability) (id : Text)
    (count : Text → ToolCapability → ℕ) (index : Index)
    (filed : (key : Text) → indices_of key index ≡ positions (count key) 0 tools)
    (unique : IsUnique index) where
  tools_under : (key : Text) → tools_at tools (indices_of key index) ≡ copies (count key) tools
  tools_under key = ap (tools_at tools) (filed key) ∙ tools_at-positions (count key) tools

  InEntry-FiledUnderNamed :
      InEntry task_lower tools id index ↔ FiledUnderNamed task_lower count tools id
  InEntry-FiledUnderNamed = (
    λ entry.
        let (key, named, (cap, here, same)) =
          InEntry-UnderKey task_lower tools id index unique entry in
        let (listed, counted) =
          (Memᴰ-copies (count key) tools cap).0 (subst (Memᴰ cap) (tools_under key) here) in
        (cap, listed, same, (key, named, counted)),
    λ (cap, listed, same, (key, named, counted)). UnderKey-InEntry task_lower tools id index (
      key,
      named,
      (
        cap,
        subst (Memᴰ cap) (sym (tools_under key))
            ((Memᴰ-copies (count key) tools cap).1 (listed, counted)),
        same,
      ),
    ),
  )

module _ (cs : Casing) (reg : CapabilityRegistry) (h : IsIndexed cs reg) (u : HasUnique reg) where
  -- The ids that the indexes give are those that `matching_ids_for_task` of the module gives for the
  -- list of capabilities.
  matching_ids-scan :
      (task id : Text)
      → Memᴰ id (Registry.matching_ids_for_task cs reg task)
        ↔ Memᴰ id (Plugins.matching_ids_for_task cs reg.tools task)
  unfolding Registry.matching_ids_for_task
  matching_ids-scan task id =
      let t = cs.to_lowercase (trim task) in
      let (tag_from, tag_to) =
        Memᴰ-insert_named t reg.tools id reg.by_tag (insert_named t reg.tools reg.by_category []) in
      let (cat_from, cat_to) = Memᴰ-insert_named t reg.tools id reg.by_category [] in
      let (tags, tags') =
        InEntry-FiledUnderNamed t reg.tools id (with_tag cs) reg.by_tag h.tags u.tags in
      let (cats, cats') =
        InEntry-FiledUnderNamed t reg.tools id (in_category cs) reg.by_category h.categories
          u.categories in
      let (scan, scan') = matching_ids_for_task-NamedBy cs reg.tools task id in
      (
        λ m. elim (tag_from m) [
          | inl entry ↦
              let (cap, listed, same, key) = tags entry in
              scan' (cap, listed, same, (is_named-NamedKey cs t cap).1 (inr key))
          | inr rest ↦ elim (cat_from rest) [
            | inl entry ↦
                let (cap, listed, same, key) = cats entry in
                scan' (cap, listed, same, (is_named-NamedKey cs t cap).1 (inl key))
            | inr older ↦ elim older [ ]
          ]
        ],
        λ m.
            let (cap, listed, same, named) = scan m in
            elim ((is_named-NamedKey cs t cap).0 named) [
              | inl key ↦ tag_to (inr (cat_to (inl (cats' (cap, listed, same, key)))))
              | inr key ↦ tag_to (inl (tags' (cap, listed, same, key)))
            ],
      )

-- What a registry answers, said of the list of its capabilities: the list itself, the capabilities
-- under a category or a tag, and the ids that a task names.
pub record Refines (cs : Casing) (reg : CapabilityRegistry) (tools : List ToolCapability)
    : Type 0 where
  pub listed : reg.tools ≡ tools
  pub by_category :
      (category : Text)
      → for_category cs reg category ≡ copies (in_category cs (cs.to_lowercase category)) tools
  pub by_tag : (tag : Text) → for_tag cs reg tag ≡ copies (with_tag cs (cs.to_lowercase tag)) tools
  pub matches :
      (task id : Text)
      → Memᴰ id (Registry.matching_ids_for_task cs reg task)
        ↔ Memᴰ id (Plugins.matching_ids_for_task cs tools task)

-- A registry into which capabilities are registered one after another refines the list of the first
-- capability of each id: by category and by tag it finds what a scan of the list finds, in its order
-- and as often as a capability has the tag, and it gives a task the ids that `matching_ids_for_task`
-- of the module gives for the list.
pub register_all-Refines :
    (cs : Casing) (caps : List ToolCapability)
    → Refines cs (register_all cs caps new) (add_all_new caps [])
register_all-Refines cs caps =
    let reg = register_all cs caps new in
    let (h, listed) = register_all-IsIndexed cs caps new (new-IsIndexed cs) in
    let u = register_all-HasUnique cs caps new new-HasUnique in
    record {
      listed = listed;
      by_category = λ category.
          for_category-copies cs reg h category
          ∙ ap (copies (in_category cs (cs.to_lowercase category))) listed;
      by_tag = λ tag.
          for_tag-copies cs reg h tag ∙ ap (copies (with_tag cs (cs.to_lowercase tag))) listed;
      matches = λ task id.
          subst
            (λ tools.
              Memᴰ id (Registry.matching_ids_for_task cs reg task)
              ↔ Memᴰ id (Plugins.matching_ids_for_task cs tools task))
            listed (matching_ids-scan cs reg h u task id);
    }
