-- ===== src/Orchestrator/Expansion.antt =====
-- oxcer-core/src/orchestrator/planning.rs, `do_expand_plan`: the steps that a directory listing adds
-- to the plan.
use oxcer_agent.Prelude.{
  ◌-◌, Bool, true, ◌&&◌, not, List, [], ◌∷◌, ◌++◌, map, Option, none, some, any, take, drop, retain,
  get_elem?,
}
use oxcer_agent.Text.{Text, Casing, codes, contains, starts_with, ends_with}
use oxcer_agent.Orchestrator.{
  ToolCallIntent, fs_list_dir, fs_read_file, fs_create_dir, fs_move, ExpansionKind,
  read_and_summarize, move_to_dir, SessionState,
}

abbrev readable_extensions : List Text
readable_extensions =
    codes ".md"
    ∷ codes ".txt"
    ∷ codes ".csv"
    ∷ codes ".json"
    ∷ codes ".yaml"
    ∷ codes ".yml"
    ∷ codes ".log"
    ∷ codes ".rst"
    ∷ []

unfoldable pub is_readable_file_type : Casing → Text → Bool
unfolding ends_with starts_with
is_readable_file_type cs name =
    any (λ e. ends_with (cs.to_lowercase name) e) readable_extensions
    && not (starts_with name (codes "."))

-- Whether a listed file passes the filter, and what holds where there is no filter.
unfoldable pub passes_filter : Option Text → Bool → Text → Bool
unfolding contains
passes_filter none otherwise f = otherwise
passes_filter (some p) otherwise f = contains f p

abbrev pub text_or_empty : Option Text → Text
text_or_empty none = []
text_or_empty (some s) = s

module _ {V : Type 0} where
  -- The workspace id of the listing that just completed.
  abbrev listed_workspace : Option (ToolCallIntent V) → Text
  listed_workspace (some (fs_list_dir workspace_id root path)) = workspace_id
  listed_workspace _ = []

  unfoldable pub expansion_steps :
      Casing → Text → Text → List Text → ExpansionKind → List (ToolCallIntent V)
  unfolding is_readable_file_type passes_filter starts_with
  expansion_steps cs ws_id ws_root files (read_and_summarize file_filter) =
      map (λ name. fs_read_file ws_id ws_root name)
        (retain (λ f. passes_filter file_filter true f && is_readable_file_type cs f) files)
  expansion_steps cs ws_id ws_root files (move_to_dir dest_id dest_root dest_dir file_filter) =
      fs_create_dir dest_id dest_root dest_dir
      ∷ map (λ name. fs_move ws_id ws_root name dest_root (dest_dir ++ (codes "/" ++ name)))
          (retain (λ f. passes_filter file_filter (not (starts_with f (codes "."))) f) files)

  -- The splice is at `step_index`; `next_action` calls this only behind a completed step, so the
  -- index lies in the plan or at its end.
  unfoldable pub do_expand_plan : Casing → SessionState V → ExpansionKind → SessionState V
  unfolding expansion_steps
  do_expand_plan cs session expansion =
      let ws_root = text_or_empty session.confirmed_root in
      let ws_id = listed_workspace (get_elem? session.plan (session.step_index - 1)) in
      let steps = expansion_steps cs ws_id ws_root session.last_dir_listing_sorted expansion in
      record session {
        plan =
            take session.step_index session.plan ++ (steps ++ drop session.step_index session.plan);
      }
