-- ===== src/Executor/Docx.antt =====
-- oxcer-core/src/executor.rs, `docx_xml_to_text`: the text of a document between its XML tags.
use oxcer_agent.Prelude.{
  ℕ, Bool, true, false, ◌||◌, [], ◌∷◌, ◌++◌, ◌≡◌, refl, push, is_empty, ◌==◌, if◌then◌else◌,
}
use oxcer_agent.Text.{Text, codes, text_eq, starts_with, trim}

pub record DocxState : Type 0 where
  pub result : Text
  pub in_tag : Bool
  pub tag_buf : Text
  pub text_buf : Text

unfoldable pub end_paragraph : DocxState → DocxState
unfolding trim
end_paragraph s =
    let line = trim s.text_buf in
    record s {
      result = if is_empty line then s.result else s.result ++ (line ++ 10 ∷ []);
      text_buf = [];
    }

unfoldable pub line_break : Text → DocxState → DocxState
unfolding text_eq starts_with
line_break tag s =
    if text_eq tag (codes "w:br/") || starts_with tag (codes "w:br ")
    then record s { result = push s.result 10 }
    else s

unfoldable pub end_tag : DocxState → DocxState
unfolding end_paragraph line_break trim text_eq
end_tag s =
    let tag = trim s.tag_buf in
    line_break tag (if text_eq tag (codes "/w:p") then end_paragraph s else s)

unfoldable pub read_char : DocxState → ℕ → DocxState
unfolding end_tag
read_char s ch =
    if ch == b'<'
    then record s { in_tag = true; tag_buf = [] }
    else if ch == b'>'
    then end_tag (record s { in_tag = false })
    else if s.in_tag
    then record s { tag_buf = push s.tag_buf ch }
    else record s { text_buf = push s.text_buf ch }

unfoldable pub read_chars : DocxState → Text → DocxState
unfolding read_char
read_chars s [] = s
read_chars s (ch ∷ rest) = read_chars (read_char s ch) rest

-- What `</w:p>` did not close follows at the end.
unfoldable pub flushed : DocxState → Text
unfolding trim
flushed s = trim (s.result ++ trim s.text_buf)

unfoldable pub docx_xml_to_text : Text → Text
unfolding read_chars flushed
docx_xml_to_text xml =
    flushed (read_chars (record { result = []; in_tag = false; tag_buf = []; text_buf = [] }) xml)

-- The line break stands in front of its paragraph, where the last trimming takes it away.
two_paragraphs :
    docx_xml_to_text (codes "<w:p><w:r>Hello</w:r><w:br/> you</w:p><w:p> there </w:p>tail")
    ≡ codes "Hello you" ++ (10 ∷ (codes "there" ++ 10 ∷ codes "tail"))
unfolding docx_xml_to_text
two_paragraphs = refl
