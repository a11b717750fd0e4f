-- ===== src/Sanitizer/Blanked.antt =====
-- oxcer-core/src/prompt_sanitizer.rs: the content of a sensitive file has no part in what is built.
use oxcer_agent.Prelude.{
  ◌≡◌, refl, sym, ap, false, List, [], ◌∷◌, map, Option, Bool-cases, inl, inr,
}
use oxcer_agent.Text.{Text, Casing}
use oxcer_agent.Sensitivity.{Matcher}
use oxcer_agent.Sanitizer.Secrets.{is_sensitive_path}
use oxcer_agent.Sanitizer.Payload.{
  FileContentChunk, LlmPayloadParts, file_section, build_raw_payload, sanitized_chunk,
  sanitized_chunks, sanitize_for_llm,
}

-- A chunk with whatever other content, if its path is sensitive.
abbrev pub Differs : Casing → FileContentChunk → FileContentChunk → Type 0
Differs cs a b = (a.path ≡ b.path) × (is_sensitive_path cs a.path ≡ false → a.content ≡ b.content)

-- Chunks with the same paths, of which only the sensitive ones differ in their content.
abbrev pub SameButSecrets : Casing → List FileContentChunk → List FileContentChunk → Type 0
SameButSecrets cs [] [] = Unit
SameButSecrets cs (a ∷ chunks) (b ∷ others) = Differs cs a b × SameButSecrets cs chunks others
SameButSecrets cs _ _ = ⊥

same_chunk : (a b : FileContentChunk) → a.path ≡ b.path → a.content ≡ b.content → a ≡ b
same_chunk a b path content = λ i. record { path = path i; content = content i }

module _ (cs : Casing) where
  file_section-Differs :
      (a b : FileContentChunk) → Differs cs a b → file_section cs a ≡ file_section cs b
  unfolding file_section
  file_section-Differs a b (path, content) = elim (Bool-cases (is_sensitive_path cs a.path)) [
    | inl e ↦ rw (sym path, e) refl
    | inr e ↦ ap (file_section cs) (same_chunk a b path (content e))
  ]

  file_sections-SameButSecrets :
      (chunks others : List FileContentChunk)
      → SameButSecrets cs chunks others
      → map (file_section cs) chunks ≡ map (file_section cs) others
  file_sections-SameButSecrets [] [] same = refl
  file_sections-SameButSecrets [] (b ∷ others) same = absurd same
  file_sections-SameButSecrets (a ∷ chunks) [] same = absurd same
  file_sections-SameButSecrets (a ∷ chunks) (b ∷ others) (one, same) =
      rw (file_section-Differs a b one, file_sections-SameButSecrets chunks others same) refl

  build_raw_payload-SameButSecrets :
      (parts : LlmPayloadParts) (others : List FileContentChunk)
      → SameButSecrets cs parts.file_snippets others
      → build_raw_payload cs (record parts { file_snippets = others }) ≡ build_raw_payload cs parts
  unfolding build_raw_payload
  build_raw_payload-SameButSecrets parts others same =
      rw (file_sections-SameButSecrets parts.file_snippets others same) refl

  module _ (mt : Matcher) (home_dir : Option Text) where
    sanitized_chunk-Differs :
        (a b : FileContentChunk)
        → Differs cs a b
        → sanitized_chunk mt cs home_dir a ≡ sanitized_chunk mt cs home_dir b
    unfolding sanitized_chunk
    sanitized_chunk-Differs a b (path, content) = elim (Bool-cases (is_sensitive_path cs a.path)) [
      | inl e ↦ rw (sym path, e) refl
      | inr e ↦ ap (sanitized_chunk mt cs home_dir) (same_chunk a b path (content e))
    ]

    sanitized_chunks-SameButSecrets :
        (chunks others : List FileContentChunk)
        → SameButSecrets cs chunks others
        → sanitized_chunks mt cs home_dir chunks ≡ sanitized_chunks mt cs home_dir others
    unfolding sanitized_chunks
    sanitized_chunks-SameButSecrets [] [] same = refl
    sanitized_chunks-SameButSecrets [] (b ∷ others) same = absurd same
    sanitized_chunks-SameButSecrets (a ∷ chunks) [] same = absurd same
    sanitized_chunks-SameButSecrets (a ∷ chunks) (b ∷ others) (one, same) =
        rw (sanitized_chunk-Differs a b one, sanitized_chunks-SameButSecrets chunks others same)
          refl

    -- Neither the payload that is built of the parts of a prompt nor the sanitized prompt depends on
    -- the content of a file whose path is sensitive.
    pub content-SameButSecrets :
        (parts : LlmPayloadParts) (others : List FileContentChunk)
        → SameButSecrets cs parts.file_snippets others
        → (build_raw_payload cs (record parts { file_snippets = others })
            ≡ build_raw_payload cs parts)
          × (sanitize_for_llm mt cs home_dir (record { task = parts.task; file_contents = others })
              ≡ sanitize_for_llm mt cs home_dir
                  (record { task = parts.task; file_contents = parts.file_snippets }))
    unfolding sanitize_for_llm
    content-SameButSecrets parts others same = (
      build_raw_payload-SameButSecrets parts others same,
      rw (sanitized_chunks-SameButSecrets parts.file_snippets others same, sanitize_for_llm) refl,
    )
