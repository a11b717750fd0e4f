-- ===== src/Memory/Persist.antt =====
-- oxcer-core/src/memory.rs: facts survive in the file.
use oxcer_agent.Prelude.{true, false, none, some, All, ok, ◌≡◌, refl}
use oxcer_agent.Text.{Text, Casing}
use oxcer_agent.Paths.{parent}
use oxcer_agent.Memory.{Memory, Storage, is_dev_null, appended, load_or_create, save, append_fact}
use oxcer_agent.Memory.Markdown.{to_markdown}
use oxcer_agent.Memory.Laws.{IsStorable, parse_markdown_facts-to_markdown}

-- A storage that keeps what is written.
pub record IsKept {W : Type 0} (st : Storage W) : Type 0 where
  pub there : (w : W) (path text : Text) → st.exists (st.write w path text) path ≡ true
  pub same : (w : W) (path text : Text) → st.read_to_string (st.write w path text) path ≡ ok text

-- On a storage that keeps what is written, the memory that is loaded behind `append_fact` is the one that
-- `append_fact` has left, where its path is not /dev/null and its facts can be told apart in their lines.
pub load_or_create-append_fact :
    {W : Type 0} (st : Storage W) (cs : Casing) (now later : Text) (memory : Memory)
    (content : Text) (w : W)
    → IsKept st
    → is_dev_null memory.path ≡ false
    → All IsStorable (appended cs now later content memory.facts)
    → load_or_create st (append_fact st cs now later memory content w).1 memory.path
      ≡ (append_fact st cs now later memory content w).0
unfolding append_fact save load_or_create
load_or_create-append_fact {W} st cs now later memory content w kept real storable =
    let facts = appended cs now later content memory.facts in
    let made : W = elim (parent memory.path) [ none ↦ w | some dir ↦ st.create_dir_all w dir ] in
    rw
      (
        real,
        kept.there made memory.path (to_markdown facts),
        kept.same made memory.path (to_markdown facts),
        parse_markdown_facts-to_markdown facts storable,
      )
      refl
