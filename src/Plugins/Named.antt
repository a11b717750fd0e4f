-- ===== src/Plugins/Named.antt =====
-- oxcer-core/src/plugins: a capability is named by a task where it is filed under a key that the task
-- names.
use mathlib.Core.List.{Memᴰ}
use mathlib.Core.Path.{subst}
use oxcer_agent.Prelude.{
  ℕ, ◌+◌, ◌≤◌, ◌≡◌, refl, sym, ◌⊎◌, ◌↔◌, ◌||◌, Bool, true, false, List, [], ◌∷◌, ◌++◌, Option, none,
  some, any, Bool-cases, inl, inr, or_right, arith, zero, suc,
}
use oxcer_agent.Text.{Text, Casing, text_eq, contains}
use oxcer_agent.Text.Laws.{text_eq_sound, text_eq_refl}
use oxcer_agent.Plugins.{ToolCapability, tag_list}
use oxcer_agent.Plugins.Filed.{is_named}
use oxcer_agent.Plugins.Positions.{times, copies, one_if, in_category, count_tags, with_tag}

Memᴰ-times :
    {A : Type 0} (n : ℕ) (a x : A) (rest : List A)
    → Memᴰ x (times n a ++ rest) ↔ (((1 ≤ n) × (x ≡ a)) ⊎ Memᴰ x rest)
Memᴰ-times zero a x rest =
    (λ m. inr m, λ either. elim either [ inl (none_left, same) ↦ absurd (omega arith) | inr m ↦ m ])
Memᴰ-times (suc n) a x rest =
    let (from, to) = Memᴰ-times n a x rest in
    (
      λ m. elim m [
        | Memᴰ.head same ↦ inl (omega arith, same)
        | Memᴰ.tail later ↦ elim (from later) [
          | inl (more, same) ↦ inl (omega arith, same)
          | inr inside ↦ inr inside
        ]
      ],
      λ either. elim either [
        | inl (more, same) ↦ Memᴰ.head same
        | inr inside ↦ Memᴰ.tail (to (inr inside))
      ],
    )

pub Memᴰ-copies :
    (count : ToolCapability → ℕ) (tools : List ToolCapability) (x : ToolCapability)
    → Memᴰ x (copies count tools) ↔ (Memᴰ x tools × (1 ≤ count x))
Memᴰ-copies count [] x = (λ m. elim m [ ], λ (m, counted). elim m [ ])
Memᴰ-copies count (t ∷ tools) x =
    let (from, to) = Memᴰ-copies count tools x in
    let (from_first, to_first) = Memᴰ-times (count t) t x (copies count tools) in
    (
      λ m. elim (from_first m) [
        | inl (counted, same) ↦ (Memᴰ.head same, subst (λ u. 1 ≤ count u) (sym same) counted)
        | inr later ↦ let (inside, counted) = from later in (Memᴰ.tail inside, counted)
      ],
      λ (m, counted). elim m [
        | Memᴰ.head same ↦ to_first (inl (subst (λ u. 1 ≤ count u) same counted, same))
        | Memᴰ.tail later ↦ to_first (inr (to (later, counted)))
      ],
    )

counted_key : (key k : Text) → 1 ≤ one_if (text_eq key k) → key ≡ k
counted_key key k counted = elim (Bool-cases (text_eq key k)) [
  | inl e ↦ text_eq_sound key k e
  | inr e ↦ absurd (omega (arith, rw e at counted))
]

counts_itself : (k : Text) → 1 ≤ one_if (text_eq k k)
counts_itself k = rw (text_eq_refl k) (omega arith)

-- A key that the task names and that is counted.
abbrev pub NamedKey : Text → (Text → ℕ) → Type 0
NamedKey task_lower count = (key : Text) × (contains task_lower key ≡ true) × (1 ≤ count key)

module _ (cs : Casing) (task_lower : Text) where
  category_named :
      (hint : Option Text)
      → (elim hint [ none ↦ false | some h ↦ contains task_lower (cs.to_lowercase h) ] ≡ true)
        ↔ NamedKey task_lower
            (λ key. elim hint [ none ↦ 0 | some h ↦ one_if (text_eq key (cs.to_lowercase h)) ])
  category_named none = (λ h. cc, λ (key, named, counted). absurd (omega arith))
  category_named (some h) = (
    λ named. (cs.to_lowercase h, named, counts_itself (cs.to_lowercase h)),
    λ (key, named, counted).
        subst (λ k. contains task_lower k ≡ true) (counted_key key (cs.to_lowercase h) counted)
          named,
  )

  count_split : (n m : ℕ) → 1 ≤ n + m → (1 ≤ n) ⊎ (1 ≤ m)
  count_split zero m h = inr (omega arith)
  count_split (suc n) m h = inl (omega arith)

  tags_named :
      (tags : List Text)
      → (any (λ tag. contains task_lower (cs.to_lowercase tag)) tags ≡ true)
        ↔ NamedKey task_lower (λ key. count_tags cs key tags)
  tags_named [] = (λ h. cc, λ (key, named, counted). absurd (omega arith))
  tags_named (tag ∷ tags) =
      let (from, to) = tags_named tags in
      (
        λ h. elim (Bool-cases (contains task_lower (cs.to_lowercase tag))) [
          | inl e ↦ (cs.to_lowercase tag, e, omega (arith, counts_itself (cs.to_lowercase tag)))
          | inr e ↦ let (key, named, counted) = from (rw e at h) in (key, named, omega arith)
        ],
        λ (key, named, counted).
            elim (count_split (one_if (text_eq key (cs.to_lowercase tag))) (count_tags cs key tags)
              counted) [
                | inl first ↦
                    rw
                      (subst (λ k. contains task_lower k ≡ true)
                        (counted_key key (cs.to_lowercase tag) first) named)
                      refl
                | inr later ↦
                    or_right (contains task_lower (cs.to_lowercase tag)) (to (key, named, later))
              ],
      )

  tag_list_named :
      (tags : Option (List Text))
      → (elim tags [
        | none ↦ false
        | some listed ↦ any (λ tag. contains task_lower (cs.to_lowercase tag)) listed
      ]
          ≡ true)
        ↔ NamedKey task_lower (λ key. count_tags cs key (tag_list tags))
  tag_list_named none = (λ h. cc, λ (key, named, counted). absurd (omega arith))
  tag_list_named (some tags) = tags_named tags

  either_true : (a b : Bool) → ((a || b) ≡ true) ↔ ((a ≡ true) ⊎ (b ≡ true))
  either_true true b = (λ h. inl refl, λ either. refl)
  either_true false b = (λ h. inr h, λ either. elim either [ inl e ↦ cc | inr e ↦ e ])

  -- A capability is named where a key is that it is filed under.
  pub is_named-NamedKey :
      (cap : ToolCapability)
      → (is_named cs task_lower cap ≡ true) ↔ (
          NamedKey task_lower (λ key. in_category cs key cap)
          ⊎ NamedKey task_lower (λ key. with_tag cs key cap))
  unfolding is_named
  is_named-NamedKey cap =
      let (from, to) = either_true _ _ in
      let (by_category, by_category') = category_named cap.category_hint in
      let (by_tag, by_tag') = tag_list_named cap.tags in
      (
        λ named. elim (from named) [
          | inl hint ↦ inl (by_category hint)
          | inr tag ↦ inr (by_tag tag)
        ],
        λ either.
            to (elim either [ inl key ↦ inl (by_category' key) | inr key ↦ inr (by_tag' key) ]),
      )
