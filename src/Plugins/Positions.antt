-- ===== src/Plugins/Positions.antt =====
-- oxcer-core/src/plugins/capability_registry.rs: what the indexes hold, by the places of the
-- capabilities.
use mathlib.Core.List.{append_assoc, append-nil}
use oxcer_agent.Prelude.{
  ℕ, zero, suc, ◌+◌, ◌≡◌, refl, sym, ap, ◌∙◌, Bool, true, false, List, [], ◌∷◌, ◌++◌, Option, none,
  some, push, length, length-append, get_elem?, Bool-cases, inl, inr, arith,
}
use oxcer_agent.Text.{Text, Casing, text_eq}
use oxcer_agent.Text.Laws.{text_eq_sound, text_eq_refl}
use oxcer_agent.Plugins.{ToolCapability, entry_push, push_category, push_tags, tag_list}
use oxcer_agent.Plugins.Registry.{Index, indices_of, tools_at}

abbrev pub times {ℓ} : {A : Type ℓ} → ℕ → A → List A
times zero a = []
times (suc n) a = a ∷ times n a

-- The places of the capabilities in a list, each as often as it is counted.
abbrev pub positions : (ToolCapability → ℕ) → ℕ → List ToolCapability → List ℕ
positions count n [] = []
positions count n (t ∷ tools) = times (count t) n ++ positions count (suc n) tools

-- The capabilities themselves.
abbrev pub copies : (ToolCapability → ℕ) → List ToolCapability → List ToolCapability
copies count [] = []
copies count (t ∷ tools) = times (count t) t ++ copies count tools

abbrev pub one_if : Bool → ℕ
one_if true = 1
one_if false = 0

-- How often a capability is filed under a key: once by its category, and once for each tag.
abbrev pub in_category : Casing → Text → ToolCapability → ℕ
in_category cs key t = elim t.category_hint [
  | none ↦ 0
  | some hint ↦ one_if (text_eq key (cs.to_lowercase hint))
]

abbrev pub count_tags : Casing → Text → List Text → ℕ
count_tags cs key [] = 0
count_tags cs key (tag ∷ tags) = one_if (text_eq key (cs.to_lowercase tag)) + count_tags cs key tags

abbrev pub with_tag : Casing → Text → ToolCapability → ℕ
with_tag cs key t = count_tags cs key (tag_list t.tags)

suc_left : (n m : ℕ) → suc (n + m) ≡ suc n + m
suc_left n m = omega arith

suc_right : (n m : ℕ) → suc n + m ≡ n + suc m
suc_right n m = omega arith

times-add : {A : Type 0} (n m : ℕ) (a : A) → times n a ++ times m a ≡ times (n + m) a
times-add zero m a = ap (λ k. times k a) (omega arith)
times-add (suc n) m a = ap (λ l. a ∷ l) (times-add n m a) ∙ ap (λ k. times k a) (suc_left n m)

-- Equal keys are compared alike.
same_key : (key k k' : Text) → text_eq k k' ≡ true → text_eq key k ≡ text_eq key k'
same_key key k k' same = ap (text_eq key) (text_eq_sound k k' same)

not_both : (key k k' : Text) → text_eq k k' ≡ false → text_eq key k' ≡ true → text_eq key k ≡ false
not_both key k k' apart same = elim (Bool-cases (text_eq key k)) [
  | inl e ↦ cc (apart, text_eq_refl k, text_eq_sound key k e, text_eq_sound key k' same)
  | inr e ↦ e
]

pub indices_of-entry_push :
    (key k : Text) (i : ℕ) (index : Index)
    → indices_of key (entry_push k i index)
      ≡ indices_of key index ++ times (one_if (text_eq key k)) i
unfolding indices_of entry_push
indices_of-entry_push key k i [] = elim (Bool-cases (text_eq key k)) [
  | inl e ↦ rw e refl
  | inr e ↦ rw e refl
]
indices_of-entry_push key k i ((k', is) ∷ index) = elim (Bool-cases (text_eq k k')) [
  | inl same ↦ elim (Bool-cases (text_eq key k')) [
    | inl e ↦ rw (same, same_key key k k' same, e) refl
    | inr e ↦ rw (same, same_key key k k' same, e) (sym (append-nil _))
  ]
  | inr apart ↦ elim (Bool-cases (text_eq key k')) [
    | inl e ↦ rw (apart, not_both key k k' apart e, e) (sym (append-nil is))
    | inr e ↦ rw (apart, e) (indices_of-entry_push key k i index)
  ]
]

pub indices_of-push_category :
    (cs : Casing) (key : Text) (hint : Option Text) (i : ℕ) (index : Index)
    → indices_of key (push_category cs hint i index)
      ≡ indices_of key index
        ++ times (elim hint [ none ↦ 0 | some h ↦ one_if (text_eq key (cs.to_lowercase h)) ]) i
unfolding push_category
indices_of-push_category cs key none i index = sym (append-nil _)
indices_of-push_category cs key (some hint) i index =
    indices_of-entry_push key (cs.to_lowercase hint) i index

pub indices_of-push_tags :
    (cs : Casing) (key : Text) (tags : List Text) (i : ℕ) (index : Index)
    → indices_of key (push_tags cs tags i index)
      ≡ indices_of key index ++ times (count_tags cs key tags) i
unfolding push_tags
indices_of-push_tags cs key [] i index = sym (append-nil _)
indices_of-push_tags cs key (tag ∷ tags) i index =
    indices_of-push_tags cs key tags i (entry_push (cs.to_lowercase tag) i index)
    ∙ ap (λ is. is ++ times (count_tags cs key tags) i)
        (indices_of-entry_push key (cs.to_lowercase tag) i index)
    ∙ append_assoc (indices_of key index) (times (one_if (text_eq key (cs.to_lowercase tag))) i)
        (times (count_tags cs key tags) i)
    ∙ ap (λ is. indices_of key index ++ is)
        (times-add (one_if (text_eq key (cs.to_lowercase tag))) (count_tags cs key tags) i)

module _ (count : ToolCapability → ℕ) where
  -- One capability more is filed under its place, behind the others.
  pub positions-push :
      (n : ℕ) (tools : List ToolCapability) (t : ToolCapability)
      → positions count n (push tools t)
        ≡ positions count n tools ++ times (count t) (n + length tools)
  positions-push n [] t = append-nil _ ∙ ap (times (count t)) (omega arith)
  positions-push n (u ∷ tools) t =
      ap (λ is. times (count u) n ++ is)
        (positions-push (suc n) tools t
          ∙ ap (λ k. positions count (suc n) tools ++ times (count t) k)
              (suc_right n (length tools)))
      ∙ sym (
          append_assoc (times (count u) n) (positions count (suc n) tools)
            (times (count t) (n + length (u ∷ tools))))

  get_elem?-length :
      (front tools : List ToolCapability) (t : ToolCapability)
      → get_elem? (front ++ t ∷ tools) (length front) ≡ some t
  get_elem?-length [] tools t = refl
  get_elem?-length (u ∷ front) tools t = get_elem?-length front tools t

  tools_at-times :
      (tools : List ToolCapability) (i : ℕ) (t : ToolCapability) (n : ℕ) (is : List ℕ)
      → get_elem? tools i ≡ some t
      → tools_at tools (times n i ++ is) ≡ times n t ++ tools_at tools is
  unfolding tools_at
  tools_at-times tools i t zero is e = refl
  tools_at-times tools i t (suc n) is e =
      rw e (ap (λ found. t ∷ found) (tools_at-times tools i t n is e))

  length-push :
      (front : List ToolCapability) (t : ToolCapability)
      → length (front ++ t ∷ []) ≡ suc (length front)
  length-push front t = omega (arith, length-append front (t ∷ []))

  tools_at-positions_from :
      (front tools : List ToolCapability)
      → tools_at (front ++ tools) (positions count (length front) tools) ≡ copies count tools
  unfolding tools_at
  tools_at-positions_from front [] = refl
  tools_at-positions_from front (t ∷ tools) =
      tools_at-times (front ++ t ∷ tools) (length front) t (count t) _
        (get_elem?-length front tools t)
      ∙ ap (λ found. times (count t) t ++ found)
          (rw (append_assoc front (t ∷ []) tools, length-push front t) at
            (tools_at-positions_from (front ++ t ∷ []) tools))

  -- The capabilities at their places.
  pub tools_at-positions :
      (tools : List ToolCapability) → tools_at tools (positions count 0 tools) ≡ copies count tools
  tools_at-positions tools = tools_at-positions_from [] tools
