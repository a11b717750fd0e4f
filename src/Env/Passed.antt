-- ===== src/Env/Passed.antt =====
-- oxcer-core/src/env_filter.rs, `safe_env_for_child`: which variables a child process is given.
use mathlib.Core.List.{Memᴰ}
use oxcer_agent.Prelude.{
  Bool, true, false, not, [], ◌∷◌, Option, none, some, retain, ◌≡◌, refl, sym, ap, ◌∙◌, ◌↔◌, inl,
  inr, Bool-cases, if◌then◌else◌,
}
use oxcer_agent.Text.{Text, Casing, codes, text_eq}
use oxcer_agent.Text.Laws.{text_eq_sound, text_eq_refl}
use oxcer_agent.Env.{
  Environment, is_high_risk_key, insert_key, collect, filter_env_for_child, safe_env_for_child,
}

-- The value of a variable, where its key occurs once.
abbrev var_of : Text → Environment → Option Text
var_of key [] = none
var_of key ((k, v) ∷ env) = if text_eq k key then some v else var_of key env

abbrev or_else : Option Text → Option Text → Option Text
or_else none other = other
or_else (some v) other = some v

-- The last value that a key has.
abbrev last_of : Text → Environment → Option Text
last_of key [] = none
last_of key ((k, v) ∷ env) = or_else (last_of key env) (if text_eq k key then some v else none)

-- What a child is given under a key: PATH, LANG and TERM as they are set for it, nothing under another
-- key that is a risk, and the value of the parent, if there is one, under any other.
abbrev pub passed : Casing → Environment → Text → Text → Text → Text → Option Text
passed cs vars path lang term key =
    if text_eq (codes "TERM") key
    then some term
    else if text_eq (codes "LANG") key
    then some lang
    else if text_eq (codes "PATH") key
    then some path
    else if is_high_risk_key cs key
    then none
    else last_of key vars

text_eq_apart : (s t : Text) → text_eq s t ≡ false → text_eq t s ≡ false
text_eq_apart s t apart = elim (Bool-cases (text_eq t s)) [
  | inl e ↦ cc (apart, text_eq_sound t s e, text_eq_refl t)
  | inr e ↦ e
]

insert_key-var_of :
    (key k v : Text) (env : Environment)
    → var_of key (insert_key k v env) ≡ (if text_eq k key then some v else var_of key env)
unfolding insert_key
insert_key-var_of key k v [] = refl
insert_key-var_of key k v ((k', v') ∷ env) = elim (Bool-cases (text_eq k' k)) [
  | inl e ↦ elim (Bool-cases (text_eq k key)) [
    | inl here ↦ rw (e, here) refl
    | inr other ↦
        let other' : text_eq k' key ≡ false =
          ap (λ s. text_eq s key) (text_eq_sound k' k e) ∙ other in
        rw (e, other, other') refl
  ]
  | inr e ↦ elim (Bool-cases (text_eq k' key)) [
    | inl here ↦
        let apart : text_eq k key ≡ false =
          text_eq_apart key k (ap (λ s. text_eq s k) (sym (text_eq_sound k' key here)) ∙ e) in
        rw (e, here, apart) refl
    | inr other ↦ rw (e, other, insert_key-var_of key k v env) refl
  ]
]

or_else_assoc : (a b c : Option Text) → or_else a (or_else b c) ≡ or_else (or_else a b) c
or_else_assoc none b c = refl
or_else_assoc (some v) b c = refl

if-or_else :
    (here : Bool) (v : Text) (rest : Option Text)
    → (if here then some v else rest) ≡ or_else (if here then some v else none) rest
if-or_else true v rest = refl
if-or_else false v rest = refl

collect-var_of :
    (key : Text) (kept env : Environment)
    → var_of key (collect kept env) ≡ or_else (last_of key env) (var_of key kept)
unfolding collect
collect-var_of key kept [] = refl
collect-var_of key kept ((k, v) ∷ env) =
    collect-var_of key (insert_key k v kept) env
    ∙ ap (or_else (last_of key env))
        (insert_key-var_of key k v kept ∙ if-or_else (text_eq k key) v (var_of key kept))
    ∙ or_else_assoc (last_of key env) (if text_eq k key then some v else none) (var_of key kept)

or_else-none : (a : Option Text) → or_else a none ≡ a
or_else-none none = refl
or_else-none (some v) = refl

abbrev when : Bool → Text → Option Text
when here v = if here then some v else none

abbrev unless : Bool → Option Text → Option Text
unless risk o = if risk then none else o

unless-none : (risk : Bool) → unless risk none ≡ none
unless-none true = refl
unless-none false = refl

unless-or_else :
    (risk : Bool) (a b : Option Text)
    → or_else (unless risk a) (unless risk b) ≡ unless risk (or_else a b)
unless-or_else true a b = refl
unless-or_else false a b = refl

module _ (cs : Casing) where
  abbrev is_fine : Text × Text → Bool
  is_fine (k, v) = not (is_high_risk_key cs k)

  last_of-retain_cons :
      (key k v : Text) (vars : Environment) (risk : Bool)
      → last_of key (elim (not risk) as (λ b. Environment) [
        | true ↦ (k, v) ∷ retain is_fine vars
        | false ↦ retain is_fine vars
      ])
        ≡ or_else (last_of key (retain is_fine vars)) (unless risk (when (text_eq k key) v))
  last_of-retain_cons key k v vars true = sym (or_else-none (last_of key (retain is_fine vars)))
  last_of-retain_cons key k v vars false = refl

  -- Among the variables that are no risk.
  last_of-retain :
      (key : Text) (vars : Environment)
      → last_of key (retain is_fine vars)
        ≡ (if is_high_risk_key cs key then none else last_of key vars)
  last_of-retain key [] = elim (Bool-cases (is_high_risk_key cs key)) [
    | inl e ↦ rw e refl
    | inr e ↦ rw e refl
  ]
  last_of-retain key ((k, v) ∷ vars) =
      last_of-retain_cons key k v vars (is_high_risk_key cs k)
      ∙ ap (λ o. or_else o (unless (is_high_risk_key cs k) (when (text_eq k key) v)))
          (last_of-retain key vars)
      ∙ elim (Bool-cases (text_eq k key)) [
        | inl here ↦
            rw (here, ap (is_high_risk_key cs) (text_eq_sound k key here))
              (unless-or_else (is_high_risk_key cs key) (last_of key vars) (some v))
        | inr other ↦
            rw (other, unless-none (is_high_risk_key cs k))
              (or_else-none (unless (is_high_risk_key cs key) (last_of key vars))
                ∙ ap (unless (is_high_risk_key cs key)) (sym (or_else-none (last_of key vars))))
      ]

-- No key occurs twice.
abbrev IsUnique : Environment → Type 0
IsUnique [] = Unit
IsUnique ((k, v) ∷ env) = (var_of k env ≡ none) × IsUnique env

insert_key-IsUnique :
    (k v : Text) (env : Environment) → IsUnique env → IsUnique (insert_key k v env)
unfolding insert_key
insert_key-IsUnique k v [] unique = (refl, tt)
insert_key-IsUnique k v ((k', v') ∷ env) (fresh, unique) = elim (Bool-cases (text_eq k' k)) [
  | inl e ↦ rw e (ap (λ s. var_of s env) (sym (text_eq_sound k' k e)) ∙ fresh, unique)
  | inr e ↦ rw e (
    insert_key-var_of k' k v env ∙ rw (text_eq_apart k' k e) fresh,
    insert_key-IsUnique k v env unique,
  )
]

collect-IsUnique : (kept env : Environment) → IsUnique kept → IsUnique (collect kept env)
unfolding collect
collect-IsUnique kept [] unique = unique
collect-IsUnique kept ((k, v) ∷ env) unique =
    collect-IsUnique (insert_key k v kept) env (insert_key-IsUnique k v kept unique)

some_injective : {a b : Text} → ◌≡◌ {A = Option Text} (some a) (some b) → a ≡ b
some_injective e = cc

-- The pairs of an environment are the values of its keys.
Memᴰ-var_of :
    (key value : Text) (env : Environment)
    → IsUnique env
    → Memᴰ (key, value) env ↔ (var_of key env ≡ some value)
Memᴰ-var_of key value [] unique = (λ m. elim m [ ], λ e. absurd (cc e))
Memᴰ-var_of key value ((k, v) ∷ env) (fresh, unique) =
    let (from, to) = Memᴰ-var_of key value env unique in
    elim (Bool-cases (text_eq k key)) [
      | inl here ↦
          let same : k ≡ key = text_eq_sound k key here in
          (
            λ m. elim m [
              | Memᴰ.head e ↦ rw here (ap (λ kv. some kv.1) (sym e))
              | Memᴰ.tail later ↦ absurd (cc (from later, fresh, same))
            ],
            λ e.
                let given : v ≡ value = some_injective (rw here at e) in
                Memᴰ.head (cc (same, given)),
          )
      | inr other ↦ (
        λ m. elim m [
          | Memᴰ.head e ↦ absurd (cc (other, text_eq_refl key, ap (λ kv. kv.0) e))
          | Memᴰ.tail later ↦ rw other (from later)
        ],
        λ e. Memᴰ.tail (to (rw other at e)),
      )
    ]

module _ (cs : Casing) (vars : Environment) (path lang term : Text) where
  safe_env_for_child-var_of :
      (key : Text)
      → var_of key (safe_env_for_child cs vars path lang term) ≡ passed cs vars path lang term key
  unfolding safe_env_for_child filter_env_for_child
  safe_env_for_child-var_of key =
      let filtered = filter_env_for_child cs vars in
      let with_path = insert_key (codes "PATH") path filtered in
      let with_lang = insert_key (codes "LANG") lang with_path in
      insert_key-var_of key (codes "TERM") term with_lang
      ∙ ap (λ o. if text_eq (codes "TERM") key then some term else o)
          (insert_key-var_of key (codes "LANG") lang with_path
            ∙ ap (λ o. if text_eq (codes "LANG") key then some lang else o)
                (insert_key-var_of key (codes "PATH") path filtered
                  ∙ ap (λ o. if text_eq (codes "PATH") key then some path else o)
                      (collect-var_of key [] (retain (is_fine cs) vars)
                        ∙ or_else-none (last_of key (retain (is_fine cs) vars))
                        ∙ last_of-retain cs key vars)))

  safe_env_for_child-IsUnique : IsUnique (safe_env_for_child cs vars path lang term)
  unfolding safe_env_for_child filter_env_for_child
  safe_env_for_child-IsUnique = insert_key-IsUnique (codes "TERM") term _ (
      insert_key-IsUnique (codes "LANG") lang _ (
        insert_key-IsUnique (codes "PATH") path _
          (collect-IsUnique [] (retain (is_fine cs) vars) tt)))

  -- A child process is given exactly these variables: PATH, LANG and TERM as they are set for it, and
  -- of the others those of the parent whose key is no risk, each with the last value that it has there.
  pub safe_env_for_child-passed :
      (key value : Text)
      → Memᴰ (key, value) (safe_env_for_child cs vars path lang term)
        ↔ (passed cs vars path lang term key ≡ some value)
  safe_env_for_child-passed key value =
      let (from, to) =
        Memᴰ-var_of key value (safe_env_for_child cs vars path lang term)
          safe_env_for_child-IsUnique in
      (
        λ m. sym (safe_env_for_child-var_of key) ∙ from m,
        λ e. to (safe_env_for_child-var_of key ∙ e),
      )
