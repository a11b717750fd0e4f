-- ===== src/Plugins/Unique.antt =====
-- oxcer-core/src/plugins/capability_registry.rs: an index has one entry for each key, as a map has.
use mathlib.Core.List.{Memᴰ}
use mathlib.Core.Path.{subst}
use oxcer_agent.Prelude.{
  ℕ, ◌≡◌, refl, sym, false, List, [], ◌∷◌, Option, none, some, any, Bool-cases, inl, inr, All,
}
use oxcer_agent.Text.{Text, Casing, text_eq}
use oxcer_agent.Text.Laws.{text_eq_sound, text_eq_refl}
use oxcer_agent.Plugins.{ToolCapability, entry_push, push_category, push_tags, tag_list}
use oxcer_agent.Plugins.Registry.{
  Index, CapabilityRegistry, new, indices_of, has_id, register, register_all,
}

abbrev pub IsFresh : Text → Index → Type 0
IsFresh key index = All (λ entry. text_eq key entry.0 ≡ false) index

abbrev pub IsUnique : Index → Type 0
IsUnique [] = Unit
IsUnique ((key, is) ∷ index) = IsFresh key index × IsUnique index

entry_push-IsFresh :
    (key k : Text) (i : ℕ) (index : Index)
    → text_eq key k ≡ false
    → IsFresh key index
    → IsFresh key (entry_push k i index)
unfolding entry_push
entry_push-IsFresh key k i [] apart fresh = (apart, tt)
entry_push-IsFresh key k i ((k', is) ∷ index) apart (one, fresh) =
    elim (Bool-cases (text_eq k k')) [
      | inl e ↦ rw e (one, fresh)
      | inr e ↦ rw e (one, entry_push-IsFresh key k i index apart fresh)
    ]

text_eq_flip : (s t : Text) → text_eq s t ≡ false → text_eq t s ≡ false
text_eq_flip s t apart = elim (Bool-cases (text_eq t s)) [
  | inl e ↦ cc (apart, text_eq_sound t s e, text_eq_refl t)
  | inr e ↦ e
]

entry_push-IsUnique :
    (k : Text) (i : ℕ) (index : Index) → IsUnique index → IsUnique (entry_push k i index)
unfolding entry_push
entry_push-IsUnique k i [] unique = (tt, tt)
entry_push-IsUnique k i ((k', is) ∷ index) (fresh, unique) = elim (Bool-cases (text_eq k k')) [
  | inl e ↦ rw e (fresh, unique)
  | inr e ↦ rw e (
    entry_push-IsFresh k' k i index (text_eq_flip k k' e) fresh,
    entry_push-IsUnique k i index unique,
  )
]

push_category-IsUnique :
    (cs : Casing) (hint : Option Text) (i : ℕ) (index : Index)
    → IsUnique index
    → IsUnique (push_category cs hint i index)
unfolding push_category
push_category-IsUnique cs none i index unique = unique
push_category-IsUnique cs (some hint) i index unique =
    entry_push-IsUnique (cs.to_lowercase hint) i index unique

push_tags-IsUnique :
    (cs : Casing) (tags : List Text) (i : ℕ) (index : Index)
    → IsUnique index
    → IsUnique (push_tags cs tags i index)
unfolding push_tags
push_tags-IsUnique cs [] i index unique = unique
push_tags-IsUnique cs (tag ∷ tags) i index unique =
    push_tags-IsUnique cs tags i _ (entry_push-IsUnique (cs.to_lowercase tag) i index unique)

pub record HasUnique (reg : CapabilityRegistry) : Type 0 where
  pub categories : IsUnique reg.by_category
  pub tags : IsUnique reg.by_tag

register-HasUnique :
    (cs : Casing) (cap : ToolCapability) (reg : CapabilityRegistry)
    → HasUnique reg
    → HasUnique (register cs cap reg)
unfolding register
register-HasUnique cs cap reg h = elim (Bool-cases (any (has_id cap.id) reg.tools)) [
  | inl e ↦ rw e h
  | inr e ↦ rw e (record {
    categories = push_category-IsUnique cs cap.category_hint _ reg.by_category h.categories;
    tags = push_tags-IsUnique cs (tag_list cap.tags) _ reg.by_tag h.tags;
  })
]

pub register_all-HasUnique :
    (cs : Casing) (caps : List ToolCapability) (reg : CapabilityRegistry)
    → HasUnique reg
    → HasUnique (register_all cs caps reg)
unfolding register_all
register_all-HasUnique cs [] reg h = h
register_all-HasUnique cs (cap ∷ caps) reg h =
    register_all-HasUnique cs caps (register cs cap reg) (register-HasUnique cs cap reg h)

pub new-HasUnique : HasUnique new
new-HasUnique = record { categories = tt; tags = tt }

-- A key that is fresh is not the key of an entry.
fresh_entry :
    (k : Text) (index : Index) (entry : Text × List ℕ)
    → IsFresh k index
    → Memᴰ entry index
    → text_eq k entry.0 ≡ false
fresh_entry k [] entry fresh member = elim member [ ]
fresh_entry k (e ∷ index) entry (one, fresh) (Memᴰ.head same) =
    subst (λ x. text_eq k x.0 ≡ false) (sym same) one
fresh_entry k (e ∷ index) entry (one, fresh) (Memᴰ.tail later) =
    fresh_entry k index entry fresh later

-- An entry's indices are those that its key is looked up to.
pub indices_of-entry :
    (index : Index) (entry : Text × List ℕ)
    → IsUnique index
    → Memᴰ entry index
    → indices_of entry.0 index ≡ entry.1
unfolding indices_of
indices_of-entry [] entry unique member = elim member [ ]
indices_of-entry ((k, is) ∷ index) entry (fresh, unique) (Memᴰ.head same) =
    rw same (rw (text_eq_refl k) refl)
indices_of-entry ((k, is) ∷ index) entry (fresh, unique) (Memᴰ.tail later) =
    rw (text_eq_flip k entry.0 (fresh_entry k index entry fresh later))
      (indices_of-entry index entry unique later)
