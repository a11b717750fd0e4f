-- ===== src/Plugins/Registry.antt =====
-- oxcer-core/src/plugins/capability_registry.rs: the capabilities that are registered, with an index by
-- category and one by tag.
use oxcer_agent.Prelude.{
  ℕ, Bool, List, [], ◌∷◌, Option, none, some, any, push, length, get_elem?, if◌then◌else◌,
}
use oxcer_agent.Text.{Text, Casing, text_eq, contains, trim}
use oxcer_agent.Plugins.{ToolCapability, insert_id, Entries, push_category, push_tags, tag_list}

abbrev pub Index : Type 0
Index = Entries ℕ

pub record CapabilityRegistry : Type 0 where
  pub tools : List ToolCapability
  pub by_category : Index
  pub by_tag : Index

abbrev pub new : CapabilityRegistry
new = record { tools = []; by_category = []; by_tag = [] }

abbrev pub has_id : Text → ToolCapability → Bool
has_id id t = text_eq t.id id

unfoldable pub register : Casing → ToolCapability → CapabilityRegistry → CapabilityRegistry
unfolding push_category push_tags text_eq
register cs cap reg = if any (has_id cap.id) reg.tools then reg else record {
  tools = push reg.tools cap;
  by_category = push_category cs cap.category_hint (length reg.tools) reg.by_category;
  by_tag = push_tags cs (tag_list cap.tags) (length reg.tools) reg.by_tag;
}

-- Registrations one after another.
unfoldable pub register_all : Casing → List ToolCapability → CapabilityRegistry → CapabilityRegistry
unfolding register
register_all cs [] reg = reg
register_all cs (cap ∷ caps) reg = register_all cs caps (register cs cap reg)

abbrev pub first_with : List ToolCapability → Text → Option ToolCapability
first_with [] id = none
first_with (t ∷ tools) id = let later = first_with tools id in if has_id id t then some t else later

abbrev pub get : CapabilityRegistry → Text → Option ToolCapability
get reg id = first_with reg.tools id

-- `index.get(key)`, none as no indices.
unfoldable pub indices_of : Text → Index → List ℕ
unfolding text_eq
indices_of key [] = []
indices_of key ((k, is) ∷ index) =
    let later = indices_of key index in if text_eq key k then is else later

abbrev pub onto_found : Option ToolCapability → List ToolCapability → List ToolCapability
onto_found none found = found
onto_found (some t) found = t ∷ found

-- `indices.iter().filter_map(|&i| self.tools.get(i))`.
unfoldable pub tools_at : List ToolCapability → List ℕ → List ToolCapability
tools_at tools [] = []
tools_at tools (i ∷ is) = onto_found (get_elem? tools i) (tools_at tools is)

unfoldable pub for_category : Casing → CapabilityRegistry → Text → List ToolCapability
unfolding indices_of tools_at
for_category cs reg category =
    tools_at reg.tools (indices_of (cs.to_lowercase category) reg.by_category)

unfoldable pub for_tag : Casing → CapabilityRegistry → Text → List ToolCapability
unfolding indices_of tools_at
for_tag cs reg tag = tools_at reg.tools (indices_of (cs.to_lowercase tag) reg.by_tag)

-- The hash set of ids is the sorted list that is made of it in the end.
unfoldable pub insert_ids : List ToolCapability → List Text → List Text
unfolding insert_id
insert_ids [] ids = ids
insert_ids (t ∷ found) ids = insert_ids found (insert_id t.id ids)

unfoldable pub insert_named : Text → List ToolCapability → Index → List Text → List Text
unfolding contains tools_at insert_ids
insert_named task_lower tools [] ids = ids
insert_named task_lower tools ((key, is) ∷ index) ids =
    insert_named task_lower tools index
      (if contains task_lower key then insert_ids (tools_at tools is) ids else ids)

unfoldable pub matching_ids_for_task : Casing → CapabilityRegistry → Text → List Text
unfolding trim insert_named
matching_ids_for_task cs reg task =
    let task_lower = cs.to_lowercase (trim task) in
    insert_named task_lower reg.tools reg.by_tag
      (insert_named task_lower reg.tools reg.by_category [])
