-- ===== src/Plugins/Laws.antt =====
-- oxcer-core/src/plugins/mod.rs, `matching_ids_for_task`: which ids it gives.
use Prim.Native.Nat.{compare, Ordering}
use mathlib.Core.List.{Memᴰ}
use oxcer_agent.Prelude.{
  ℕ, true, false, List, [], ◌∷◌, ◌≡◌, refl, ◌∙◌, ◌⊎◌, inl, inr, Bool-cases, ◌↔◌, arith,
}
use oxcer_agent.Text.{text_compare, Text, Casing, trim, contains}
use oxcer_agent.Plugins.{
  ToolCapability, insert_id, Entries, index_ids, extend_ids, extend_named, matching_ids_for_task,
}
use oxcer_agent.Plugins.Filed.{NamedBy, UnderNamed, index_ids-UnderNamed}

compare_eq : (a b : ℕ) → compare a b ≡ Ordering.eq → a ≡ b
compare_eq a b h = ground arith

text_compare_eq : (s t : Text) → text_compare s t ≡ Ordering.eq → s ≡ t
unfolding text_compare
text_compare_eq [] [] h = refl
text_compare_eq [] (b ∷ t) h = cc
text_compare_eq (a ∷ s) [] h = cc
text_compare_eq (a ∷ s) (b ∷ t) h = head_cases (compare a b) refl h (text_compare_eq s t)
  where
    head_cases :
        (order : Ordering)
        → compare a b ≡ order
        → elim order [
          | Ordering.lt ↦ Ordering.lt
          | Ordering.eq ↦ text_compare s t
          | Ordering.gt ↦ Ordering.gt
        ]
          ≡ Ordering.eq
        → (text_compare s t ≡ Ordering.eq → s ≡ t)
        → ◌≡◌ {A = Text} (a ∷ s) (b ∷ t)
    head_cases Ordering.lt e h rest = cc
    head_cases Ordering.eq e h rest = cc (compare_eq a b e, rest h)
    head_cases Ordering.gt e h rest = cc

pub true-ne-false : true ≡ false → ⊥
true-ne-false h = cc

Memᴰ-cons : (y x : Text) (ids : List Text) → Memᴰ y (x ∷ ids) ↔ ((y ≡ x) ⊎ Memᴰ y ids)
Memᴰ-cons y x ids = (
  λ member. elim member [ Memᴰ.head same ↦ inl same | Memᴰ.tail later ↦ inr later ],
  λ either. elim either [ inl same ↦ Memᴰ.head same | inr later ↦ Memᴰ.tail later ],
)

-- Insertion adds its id and nothing else.
pub Memᴰ-insert_id :
    (y x : Text) (ids : List Text) → Memᴰ y (insert_id x ids) ↔ ((y ≡ x) ⊎ Memᴰ y ids)
unfolding insert_id
Memᴰ-insert_id y x [] = Memᴰ-cons y x []
Memᴰ-insert_id y x (z ∷ ids) = order_cases (text_compare x z) refl (Memᴰ-insert_id y x ids)
  where
    order_cases :
        (order : Ordering)
        → text_compare x z ≡ order
        → Memᴰ y (insert_id x ids) ↔ ((y ≡ x) ⊎ Memᴰ y ids)
        → Memᴰ y (elim order [
          | Ordering.lt ↦ x ∷ z ∷ ids
          | Ordering.eq ↦ z ∷ ids
          | Ordering.gt ↦ z ∷ insert_id x ids
        ])
          ↔ ((y ≡ x) ⊎ Memᴰ y (z ∷ ids))
    order_cases Ordering.lt e rest = Memᴰ-cons y x (z ∷ ids)
    order_cases Ordering.eq e rest = (
      λ member. inr member,
      λ either. elim either [
        | inl same ↦ Memᴰ.head (same ∙ text_compare_eq x z e)
        | inr member ↦ member
      ],
    )
    order_cases Ordering.gt e (from, to) = (
      λ member. elim member [
        | Memᴰ.head same ↦ inr (Memᴰ.head same)
        | Memᴰ.tail later ↦ elim (from later) [
          | inl same ↦ inl same
          | inr inside ↦ inr (Memᴰ.tail inside)
        ]
      ],
      λ either. elim either [
        | inl same ↦ Memᴰ.tail (to (inl same))
        | inr member ↦ elim member [
          | Memᴰ.head same ↦ Memᴰ.head same
          | Memᴰ.tail later ↦ Memᴰ.tail (to (inr later))
        ]
      ],
    )

module _ (task_lower id : Text) where
  Memᴰ-extend_ids :
      (id_list ids : List Text) → Memᴰ id (extend_ids id_list ids) ↔ (Memᴰ id id_list ⊎ Memᴰ id ids)
  unfolding extend_ids
  Memᴰ-extend_ids [] ids = (λ m. inr m, λ either. elim either [ inl m ↦ elim m [ ] | inr m ↦ m ])
  Memᴰ-extend_ids (x ∷ id_list) ids =
      let (from, to) = Memᴰ-extend_ids id_list (insert_id x ids) in
      let (from_one, to_one) = Memᴰ-insert_id id x ids in
      (
        λ m. elim (from m) [
          | inl later ↦ inl (Memᴰ.tail later)
          | inr inside ↦ elim (from_one inside) [
            | inl same ↦ inl (Memᴰ.head same)
            | inr older ↦ inr older
          ]
        ],
        λ either. elim either [
          | inl m ↦ elim m [
            | Memᴰ.head same ↦ to (inr (to_one (inl same)))
            | Memᴰ.tail later ↦ to (inl later)
          ]
          | inr older ↦ to (inr (to_one (inr older)))
        ],
      )

  -- What the loop over an index adds.
  Memᴰ-extend_named :
      (index : Entries Text) (ids : List Text)
      → Memᴰ id (extend_named task_lower index ids) ↔ (UnderNamed task_lower id index ⊎ Memᴰ id ids)
  unfolding extend_named
  Memᴰ-extend_named [] ids = (λ m. inr m, λ either. elim either [ inl u ↦ elim u [ ] | inr m ↦ m ])
  Memᴰ-extend_named ((key, id_list) ∷ index) ids = elim (Bool-cases (contains task_lower key)) [
    | inl e ↦
        let (from, to) = Memᴰ-extend_named index (extend_ids id_list ids) in
        let (from_one, to_one) = Memᴰ-extend_ids id_list ids in
        rw e (
          λ m. elim (from m) [
            | inl later ↦ inl (inr later)
            | inr inside ↦ elim (from_one inside) [
              | inl here ↦ inl (inl (refl, here))
              | inr older ↦ inr older
            ]
          ],
          λ either. elim either [
            | inl (inl (named, here)) ↦ to (inr (to_one (inl here)))
            | inl (inr later) ↦ to (inl later)
            | inr older ↦ to (inr (to_one (inr older)))
          ],
        )
    | inr e ↦
        let (from, to) = Memᴰ-extend_named index ids in
        rw e (
          λ m. elim (from m) [ inl later ↦ inl (inr later) | inr older ↦ inr older ],
          λ either. elim either [
            | inl (inl (named, here)) ↦ absurd (cc named)
            | inl (inr later) ↦ to (inl later)
            | inr older ↦ to (inr older)
          ],
        )
  ]

-- The hints for a task, which the two indexes give, are the ids of just those capabilities whose
-- category or one of whose tags, in lower case, is in the task, trimmed and in lower case.
pub matching_ids_for_task-NamedBy :
    (cs : Casing) (caps : List ToolCapability) (task id : Text)
    → Memᴰ id (matching_ids_for_task cs caps task)
      ↔ NamedBy cs (cs.to_lowercase (trim task)) caps id
unfolding matching_ids_for_task
matching_ids_for_task-NamedBy cs caps task id =
    let t = cs.to_lowercase (trim task) in
    let indexes = index_ids cs caps [] [] in
    let (filed, filed') = index_ids-UnderNamed t id cs caps [] [] in
    let (tag_from, tag_to) = Memᴰ-extend_named t id indexes.1 (extend_named t indexes.0 []) in
    let (cat_from, cat_to) = Memᴰ-extend_named t id indexes.0 [] in
    (
      λ m. elim (tag_from m) [
        | inl tag ↦ only_new (filed (inr tag))
        | inr rest ↦ elim (cat_from rest) [
          | inl cat ↦ only_new (filed (inl cat))
          | inr older ↦ elim older [ ]
        ]
      ],
      λ named. elim (filed' (inl named)) [
        | inl cat ↦ tag_to (inr (cat_to (inl cat)))
        | inr tag ↦ tag_to (inl tag)
      ],
    )
  where
    only_new : {A : Type 0} → A ⊎ (⊥ ⊎ ⊥) → A
    only_new (inl a) = a
    only_new (inr (inl never)) = elim never [ ]
    only_new (inr (inr never)) = elim never [ ]
