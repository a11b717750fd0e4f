-- ===== src/Plugins/Filed.antt =====
-- oxcer-core/src/plugins/mod.rs, `matching_ids_for_task`: what its two indexes hold.
use mathlib.Core.List.{Memᴰ}
use mathlib.Core.Path.{subst}
use oxcer_agent.Prelude.{
  Bool, true, false, ◌||◌, List, [], ◌∷◌, Option, none, some, any, push, ◌≡◌, refl, sym, ap, ◌∙◌,
  ◌⊎◌, ◌↔◌, inl, inr, Bool-cases, or_right,
}
use oxcer_agent.Text.{Text, Casing, contains, text_eq}
use oxcer_agent.Text.Laws.{text_eq_sound}
use oxcer_agent.Plugins.{
  ToolCapability, Entries, entry_push, push_category, push_tags, tag_list, index_ids,
}

-- Whether the task has the category of a capability, or one of its tags, in lower case: said of the
-- capability itself, without an index.
unfoldable pub is_named : Casing → Text → ToolCapability → Bool
unfolding contains
is_named cs task_lower cap =
    elim cap.category_hint [ none ↦ false | some hint ↦ contains task_lower (cs.to_lowercase hint) ]
    || elim cap.tags [
      | none ↦ false
      | some tags ↦ any (λ tag. contains task_lower (cs.to_lowercase tag)) tags
    ]

Memᴰ-push : {A : Type 0} (x a : A) (xs : List A) → Memᴰ x (push xs a) ↔ (Memᴰ x xs ⊎ (x ≡ a))
Memᴰ-push x a [] = (
  λ m. elim m [ Memᴰ.head same ↦ inr same | Memᴰ.tail later ↦ elim later [ ] ],
  λ either. elim either [ inl m ↦ elim m [ ] | inr same ↦ Memᴰ.head same ],
)
Memᴰ-push x a (y ∷ xs) =
    let (from, to) = Memᴰ-push x a xs in
    (
      λ m. elim m [
        | Memᴰ.head same ↦ inl (Memᴰ.head same)
        | Memᴰ.tail later ↦ elim (from later) [
          | inl old ↦ inl (Memᴰ.tail old)
          | inr same ↦ inr same
        ]
      ],
      λ either. elim either [
        | inl m ↦ elim m [
          | Memᴰ.head same ↦ Memᴰ.head same
          | Memᴰ.tail later ↦ Memᴰ.tail (to (inl later))
        ]
        | inr same ↦ Memᴰ.tail (to (inr same))
      ],
    )

or_cases : (a b : Bool) → (a || b) ≡ true → (a ≡ true) ⊎ (b ≡ true)
or_cases true b h = inl refl
or_cases false b h = inr h

-- A capability of the list with this id that the task names.
abbrev pub NamedBy : Casing → Text → List ToolCapability → Text → Type 0
NamedBy cs task_lower caps id =
    (cap : ToolCapability) × Memᴰ cap caps × (id ≡ cap.id) × (is_named cs task_lower cap ≡ true)

module _ (task_lower id : Text) where
  -- The id is filed under a key that the task has.
  abbrev pub UnderNamed : Entries Text → Type 0
  UnderNamed [] = ⊥
  UnderNamed ((key, id_list) ∷ index) =
      ((contains task_lower key ≡ true) × Memᴰ id id_list) ⊎ UnderNamed index

  entry_push-UnderNamed :
      (key a : Text) (index : Entries Text)
      → UnderNamed (entry_push key a index)
        ↔ (((contains task_lower key ≡ true) × (id ≡ a)) ⊎ UnderNamed index)
  unfolding entry_push
  entry_push-UnderNamed key a [] = (
    λ u. elim u [
      | inl (named, m) ↦ elim m [
        | Memᴰ.head same ↦ inl (named, same)
        | Memᴰ.tail later ↦ elim later [ ]
      ]
      | inr never ↦ elim never [ ]
    ],
    λ either. elim either [
      | inl (named, same) ↦ inl (named, Memᴰ.head same)
      | inr never ↦ elim never [ ]
    ],
  )
  entry_push-UnderNamed key a ((k, id_list) ∷ index) = elim (Bool-cases (text_eq key k)) [
    | inl e ↦
        let key-k : key ≡ k = text_eq_sound key k e in
        let (from, to) = Memᴰ-push id a id_list in
        rw e (
          λ u. elim u [
            | inl (named, m) ↦ elim (from m) [
              | inl old ↦ inr (inl (named, old))
              | inr same ↦ inl (subst (λ s. contains task_lower s ≡ true) (sym key-k) named, same)
            ]
            | inr later ↦ inr (inr later)
          ],
          λ either. elim either [
            | inl (named, same) ↦
                inl (subst (λ s. contains task_lower s ≡ true) key-k named, to (inr same))
            | inr (inl (named, old)) ↦ inl (named, to (inl old))
            | inr (inr later) ↦ inr later
          ],
        )
    | inr e ↦
        let (from, to) = entry_push-UnderNamed key a index in
        rw e (
          λ u. elim u [
            | inl here ↦ inr (inl here)
            | inr later ↦ elim (from later) [ inl new ↦ inl new | inr old ↦ inr (inr old) ]
          ],
          λ either. elim either [
            | inl new ↦ inr (to (inl new))
            | inr (inl here) ↦ inl here
            | inr (inr old) ↦ inr (to (inr old))
          ],
        )
  ]

  push_category-UnderNamed :
      (cs : Casing) (hint : Option Text) (a : Text) (index : Entries Text)
      → UnderNamed (push_category cs hint a index) ↔ (
          ((elim hint [ none ↦ false | some h ↦ contains task_lower (cs.to_lowercase h) ] ≡ true)
            × (id ≡ a))
          ⊎ UnderNamed index)
  unfolding push_category
  push_category-UnderNamed cs none a index =
      (λ u. inr u, λ either. elim either [ inl (named, same) ↦ absurd (cc named) | inr u ↦ u ])
  push_category-UnderNamed cs (some hint) a index =
      entry_push-UnderNamed (cs.to_lowercase hint) a index

  push_tags-UnderNamed :
      (cs : Casing) (tags : List Text) (a : Text) (index : Entries Text)
      → UnderNamed (push_tags cs tags a index) ↔ (
          ((any (λ tag. contains task_lower (cs.to_lowercase tag)) tags ≡ true) × (id ≡ a))
          ⊎ UnderNamed index)
  unfolding push_tags
  push_tags-UnderNamed cs [] a index =
      (λ u. inr u, λ either. elim either [ inl (named, same) ↦ absurd (cc named) | inr u ↦ u ])
  push_tags-UnderNamed cs (tag ∷ tags) a index =
      let (from, to) = push_tags-UnderNamed cs tags a (entry_push (cs.to_lowercase tag) a index) in
      let (from_one, to_one) = entry_push-UnderNamed (cs.to_lowercase tag) a index in
      (
        λ u. elim (from u) [
          | inl (named, same) ↦
              inl (or_right (contains task_lower (cs.to_lowercase tag)) named, same)
          | inr u' ↦ elim (from_one u') [
            | inl (named, same) ↦ inl (rw named refl, same)
            | inr old ↦ inr old
          ]
        ],
        λ either. elim either [
          | inl (named, same) ↦ elim (or_cases _ _ named) [
            | inl first ↦ to (inr (to_one (inl (first, same))))
            | inr later ↦ to (inl (later, same))
          ]
          | inr old ↦ to (inr (to_one (inr old)))
        ],
      )

  tag_list-any :
      (f : Text → Bool) (tags : Option (List Text))
      → elim tags [ none ↦ false | some listed ↦ any f listed ] ≡ any f (tag_list tags)
  tag_list-any f none = refl
  tag_list-any f (some tags) = refl

  -- The indexes hold the ids of the capabilities behind what they held before.
  pub index_ids-UnderNamed :
      (cs : Casing) (caps : List ToolCapability) (by_category by_tag : Entries Text)
      → let indexes = index_ids cs caps by_category by_tag in
        (UnderNamed indexes.0 ⊎ UnderNamed indexes.1)
        ↔ (NamedBy cs task_lower caps id ⊎ (UnderNamed by_category ⊎ UnderNamed by_tag))
  unfolding index_ids is_named
  index_ids-UnderNamed cs [] by_category by_tag =
      (λ u. inr u, λ either. elim either [ inl (cap, m, same, named) ↦ elim m [ ] | inr u ↦ u ])
  index_ids-UnderNamed cs (cap ∷ caps) by_category by_tag =
      let (from, to) =
        index_ids-UnderNamed cs caps (push_category cs cap.category_hint cap.id by_category)
          (push_tags cs (tag_list cap.tags) cap.id by_tag) in
      let (from_cat, to_cat) = push_category-UnderNamed cs cap.category_hint cap.id by_category in
      let (from_tag, to_tag) = push_tags-UnderNamed cs (tag_list cap.tags) cap.id by_tag in
      let listed = tag_list-any (λ tag. contains task_lower (cs.to_lowercase tag)) cap.tags in
      (
        λ u. elim (from u) [
          | inl (c, m, same, named) ↦ inl (c, Memᴰ.tail m, same, named)
          | inr (inl cat) ↦ elim (from_cat cat) [
            | inl (named, same) ↦ inl (cap, Memᴰ.head refl, same, rw named refl)
            | inr old ↦ inr (inl old)
          ]
          | inr (inr tag) ↦ elim (from_tag tag) [
            | inl (named, same) ↦ inl (cap, Memᴰ.head refl, same, or_right _ (listed ∙ named))
            | inr old ↦ inr (inr old)
          ]
        ],
        λ either. elim either [
          | inl (c, m, same, named) ↦ elim m [
            | Memᴰ.head e ↦
                let here : id ≡ cap.id = same ∙ ap (λ k. k.id) e in
                elim (or_cases _ _ (sym (ap (is_named cs task_lower) e) ∙ named)) [
                  | inl hint ↦ to (inr (inl (to_cat (inl (hint, here)))))
                  | inr tag ↦ to (inr (inr (to_tag (inl (sym listed ∙ tag, here)))))
                ]
            | Memᴰ.tail later ↦ to (inl (c, later, same, named))
          ]
          | inr (inl old) ↦ to (inr (inl (to_cat (inr old))))
          | inr (inr old) ↦ to (inr (inr (to_tag (inr old))))
        ],
      )
