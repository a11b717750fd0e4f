-- ===== src/Plugins/Matches.antt =====
-- oxcer-core/src/plugins/capability_registry.rs, `matching_ids_for_task`: which ids the
-- indexes of places give.
use mathlib.Core.List.{Memᴰ}
use mathlib.Core.Path.{subst}
use oxcer_agent.Prelude.{
  ℕ, ◌≡◌, refl, sym, ap, ◌∙◌, ◌⊎◌, ◌↔◌, true, List, [], ◌∷◌, if◌then◌else◌, Bool-cases, inl, inr,
}
use oxcer_agent.Text.{Text, text_eq, contains}
use oxcer_agent.Text.Laws.{text_eq_sound}
use oxcer_agent.Plugins.{ToolCapability, insert_id}
use oxcer_agent.Plugins.Laws.{true-ne-false, Memᴰ-insert_id}
use oxcer_agent.Plugins.Registry.{Index, indices_of, tools_at, insert_ids, insert_named}
use oxcer_agent.Plugins.Unique.{IsUnique, indices_of-entry}

-- A capability of a list with this id.
abbrev pub IdOf : Text → List ToolCapability → Type 0
IdOf id found = (cap : ToolCapability) × Memᴰ cap found × (id ≡ cap.id)

Memᴰ-insert_ids :
    (id : Text) (found : List ToolCapability) (ids : List Text)
    → Memᴰ id (insert_ids found ids) ↔ (IdOf id found ⊎ Memᴰ id ids)
unfolding insert_ids
Memᴰ-insert_ids id [] ids =
    (λ m. inr m, λ either. elim either [ inl (cap, m, same) ↦ elim m [ ] | inr m ↦ m ])
Memᴰ-insert_ids id (t ∷ found) ids =
    let (from, to) = Memᴰ-insert_ids id found (insert_id t.id ids) in
    let (from_one, to_one) = Memᴰ-insert_id id t.id ids in
    (
      λ m. elim (from m) [
        | inl (cap, here, same) ↦ inl (cap, Memᴰ.tail here, same)
        | inr inside ↦ elim (from_one inside) [
          | inl same ↦ inl (t, Memᴰ.head refl, same)
          | inr older ↦ inr older
        ]
      ],
      λ either. elim either [
        | inl (cap, here, same) ↦ elim here [
          | Memᴰ.head e ↦ to (inr (to_one (inl (same ∙ ap (λ c. c.id) e))))
          | Memᴰ.tail later ↦ to (inl (cap, later, same))
        ]
        | inr older ↦ to (inr (to_one (inr older)))
      ],
    )

module _ (task_lower : Text) (tools : List ToolCapability) (id : Text) where
  -- An entry whose key the task names has a capability with the id.
  abbrev pub InEntry : Index → Type 0
  InEntry index =
      (entry : Text × List ℕ) × Memᴰ entry index
      × (contains task_lower entry.0 ≡ true)
      × IdOf id (tools_at tools entry.1)

  later_entry : (entry : Text × List ℕ) (index : Index) → InEntry index → InEntry (entry ∷ index)
  later_entry entry index (e, m, named, found) = (e, Memᴰ.tail m, named, found)

  -- One entry adds the ids of its capabilities, if the task names its key.
  Memᴰ-insert_entry :
      (key : Text) (is : List ℕ) (ids : List Text)
      → Memᴰ id (if contains task_lower key then insert_ids (tools_at tools is) ids else ids)
        ↔ (((contains task_lower key ≡ true) × IdOf id (tools_at tools is)) ⊎ Memᴰ id ids)
  Memᴰ-insert_entry key is ids = elim (Bool-cases (contains task_lower key)) [
    | inl e ↦
        let (from, to) = Memᴰ-insert_ids id (tools_at tools is) ids in
        (
          λ m. elim (from (rw e at m)) [ inl found ↦ inl (e, found) | inr older ↦ inr older ],
          λ either.
              rw e
                (elim either [ inl (named, found) ↦ to (inl found) | inr older ↦ to (inr older) ]),
        )
    | inr e ↦ (
      λ m. inr (rw e at m),
      λ either. rw e (elim either [
        | inl (named, found) ↦ absurd (true-ne-false (sym named ∙ e))
        | inr older ↦ older
      ]),
    )
  ]

  pub Memᴰ-insert_named :
      (index : Index) (ids : List Text)
      → Memᴰ id (insert_named task_lower tools index ids) ↔ (InEntry index ⊎ Memᴰ id ids)
  unfolding insert_named
  Memᴰ-insert_named [] ids =
      (λ m. inr m, λ either. elim either [ inl (e, m, named, found) ↦ elim m [ ] | inr m ↦ m ])
  Memᴰ-insert_named ((key, is) ∷ index) ids =
      let (from, to) = Memᴰ-insert_named index _ in
      let (from_one, to_one) = Memᴰ-insert_entry key is ids in
      (
        λ m. elim (from m) [
          | inl entry ↦ inl (later_entry (key, is) index entry)
          | inr inside ↦ elim (from_one inside) [
            | inl (named, found) ↦ inl ((key, is), Memᴰ.head refl, named, found)
            | inr older ↦ inr older
          ]
        ],
        λ either. elim either [
          | inl (entry, here, named, found) ↦ elim here [
            | Memᴰ.head e ↦ to (
                inr (
                  to_one (
                    inl (
                      subst (λ x. contains task_lower x.0 ≡ true) e named,
                      subst (λ x. IdOf id (tools_at tools x.1)) e found,
                    ))))
            | Memᴰ.tail later ↦ to (inl (entry, later, named, found))
          ]
          | inr older ↦ to (inr (to_one (inr older)))
        ],
      )

  -- A key that the task names, under which a capability with the id is filed.
  abbrev pub UnderKey : Index → Type 0
  UnderKey index =
      (key : Text) × (contains task_lower key ≡ true)
      × IdOf id (tools_at tools (indices_of key index))

  pub InEntry-UnderKey : (index : Index) → IsUnique index → InEntry index → UnderKey index
  InEntry-UnderKey index unique (entry, here, named, found) =
      (entry.0, named, rw (indices_of-entry index entry unique here) found)

  pub UnderKey-InEntry : (index : Index) → UnderKey index → InEntry index
  unfolding indices_of tools_at
  UnderKey-InEntry [] (key, named, (cap, m, same)) = elim m [ ]
  UnderKey-InEntry ((k, is) ∷ index) (key, named, found) = elim (Bool-cases (text_eq key k)) [
    | inl e ↦ (
      (k, is),
      Memᴰ.head refl,
      subst (λ s. contains task_lower s ≡ true) (text_eq_sound key k e) named,
      rw e at found,
    )
    | inr e ↦ later_entry (k, is) index (UnderKey-InEntry index (key, named, rw e at found))
  ]
