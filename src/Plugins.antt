-- ===== src/Plugins.antt =====
-- oxcer-core/src/plugins/mod.rs and capability_registry.rs: the capabilities of plugins, and the ids of
-- those that a task names.
pub mod Laws
pub mod Filed
pub mod Registry
pub mod Positions
pub mod Indexed
pub mod Unique
pub mod Matches
pub mod Named
pub mod Agrees
mod Tests
use Prim.Native.Nat.{Ordering}
use oxcer_agent.Prelude.{Bool, List, [], ◌∷◌, Option, none, some, push, if◌then◌else◌}
use oxcer_agent.Text.{Text, Casing, contains, trim, text_compare, text_eq}

pub record ToolCapability : Type 0 where
  pub id : Text
  pub description : Text
  pub category_hint : Option Text
  pub tags : Option (List Text)
  pub dangerous : Bool

-- A set of ids, kept as the sorted list that the code makes of its hash set in the end.
unfoldable pub insert_id : Text → List Text → List Text
unfolding text_compare
insert_id x [] = x ∷ []
insert_id x (y ∷ ys) =
    let rest = insert_id x ys in
    elim (text_compare x y) [
      | Ordering.lt ↦ x ∷ (y ∷ ys)
      | Ordering.eq ↦ y ∷ ys
      | Ordering.gt ↦ y ∷ rest
    ]

-- A hash map from keys to lists, with one entry for each key. The order of its entries does not count
-- here: all that is made of them is a set.
abbrev pub Entries : Type 0 → Type 0
Entries A = List (Text × List A)

-- `index.entry(key).or_default().push(a)`.
unfoldable pub entry_push : {A : Type 0} → Text → A → Entries A → Entries A
unfolding text_eq
entry_push key a [] = (key, a ∷ []) ∷ []
entry_push key a ((k, listed) ∷ index) =
    let later = entry_push key a index in
    if text_eq key k then (k, push listed a) ∷ index else (k, listed) ∷ later

unfoldable pub push_category : {A : Type 0} → Casing → Option Text → A → Entries A → Entries A
unfolding entry_push
push_category cs none a index = index
push_category cs (some hint) a index = entry_push (cs.to_lowercase hint) a index

unfoldable pub push_tags : {A : Type 0} → Casing → List Text → A → Entries A → Entries A
unfolding entry_push
push_tags cs [] a index = index
push_tags cs (tag ∷ tags) a index = push_tags cs tags a (entry_push (cs.to_lowercase tag) a index)

-- The tags of a capability, none where it has no list of them.
abbrev pub tag_list : Option (List Text) → List Text
tag_list none = []
tag_list (some tags) = tags

-- The loop that files the ids of the capabilities under their categories and under their tags.
unfoldable pub index_ids :
    Casing → List ToolCapability → Entries Text → Entries Text → Entries Text × Entries Text
unfolding push_category push_tags
index_ids cs [] by_category by_tag = (by_category, by_tag)
index_ids cs (cap ∷ capabilities) by_category by_tag =
    index_ids cs capabilities (push_category cs cap.category_hint cap.id by_category)
      (push_tags cs (tag_list cap.tags) cap.id by_tag)

-- `ids.extend(id_list)`.
unfoldable pub extend_ids : List Text → List Text → List Text
unfolding insert_id
extend_ids [] ids = ids
extend_ids (id ∷ id_list) ids = extend_ids id_list (insert_id id ids)

-- The loop over an index, which takes the ids under the keys that are in the task.
unfoldable pub extend_named : Text → Entries Text → List Text → List Text
unfolding contains extend_ids
extend_named task_lower [] ids = ids
extend_named task_lower ((key, id_list) ∷ index) ids =
    extend_named task_lower index (if contains task_lower key then extend_ids id_list ids else ids)

unfoldable pub matching_ids_for_task : Casing → List ToolCapability → Text → List Text
unfolding trim index_ids extend_named
matching_ids_for_task cs capabilities task =
    let task_lower = cs.to_lowercase (trim task) in
    let (by_category, by_tag) = index_ids cs capabilities [] [] in
    extend_named task_lower by_tag (extend_named task_lower by_category [])
