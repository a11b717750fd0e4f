-- ===== src/Orchestrator/Planning/Build.antt =====
-- oxcer-core/src/orchestrator/planning.rs: the plans, and the prompts in them.
use oxcer_agent.Prelude.{List, [], ◌∷◌, ◌++◌, some}
use oxcer_agent.Text.{Text, codes}
use oxcer_agent.Router.{Strategy, cheap_model}
use oxcer_agent.Orchestrator.{ToolCallIntent, fs_list_dir, fs_read_file, llm_generate}
use oxcer_agent.Orchestrator.Emit.{fs_result_placeholder, most_recent_file_placeholder}

unfoldable pub chat_system_hint : Text
chat_system_hint =
    codes "You are Oxcer, a local AI assistant. Answer the user's question "
    ++ (codes "clearly and directly. Be concise.")

unfoldable pub summarizer_system_hint : Text
summarizer_system_hint =
    codes "You are a writing assistant. You have been given the full text of "
    ++ (codes "one or more documents. Your only job is to write the requested "
        ++ (codes "output using that text. Only use information that appears in the "
            ++ (codes "provided content. Do not mention tools, tool calls, file paths, "
                ++ (codes "or system internals. Do not describe what you are going to do. "
                    ++ (codes "Write only the requested prose.")))))

-- A prompt: the task, and what is said of it.
abbrev pub asked : Text → Text → Text
asked task request = codes "The user asked: \"" ++ (task ++ request)

unfoldable pub listing_request : Text
listing_request =
    codes "\"\n\nHere is the actual directory listing returned by the "
    ++ (codes "filesystem tool:\n"
        ++ (fs_result_placeholder
            ++ (codes "\n\nUsing ONLY the information above, provide a concise summary. Do "
                ++ (codes "NOT invent or add any file names or content that is not in the "
                    ++ (codes "tool result.")))))

unfoldable pub listing_prompt : Text → Text
unfolding listing_request
listing_prompt task = asked task listing_request

unfoldable pub content_request : Text
content_request =
    codes "\"\n\nHere is the actual file content returned by the filesystem "
    ++ (codes "tool:\n"
        ++ (fs_result_placeholder
            ++ (codes "\n\nUsing ONLY the file content above, provide a concise and "
                ++ (codes "accurate response. Do NOT add, invent, or infer any information "
                    ++ (codes "that is not present in the tool result. If the content appears "
                        ++ (codes "truncated or is unavailable, say so."))))))

unfoldable pub content_prompt : Text → Text
unfolding content_request
content_prompt task = asked task content_request

unfoldable pub recent_request : Text
recent_request =
    codes "\"\n\nHere is the file content returned by the filesystem tool:\n"
    ++ (fs_result_placeholder
        ++ (codes "\n\nWrite a concise, clear summary in English. Base your summary "
            ++ (codes "ONLY on the file content above — do not add information not "
                ++ (codes "present in the file. If the content appears to be binary or "
                    ++ (codes "unreadable, say so explicitly.")))))

unfoldable pub recent_prompt : Text → Text
unfolding recent_request
recent_prompt task = asked task recent_request

unfoldable pub folder_advice : Text
folder_advice =
    codes "\"\n\nYou could not determine which folder or file they meant. Ask "
    ++ (codes "them to specify a full path (for example /Users/me/Desktop) "
        ++ (codes "rather than inventing or guessing a folder structure."))

unfoldable pub folder_question : Text → Text
unfolding folder_advice
folder_question task = asked task folder_advice

unfoldable pub file_advice : Text
file_advice =
    codes "\"\n\nYou could not determine which file they meant. Ask them to "
    ++ (codes "specify the full path to the file rather than guessing or "
        ++ (codes "inventing its contents."))

unfoldable pub file_question : Text → Text
unfolding file_advice
file_question task = asked task file_advice

module _ {V : Type 0} where
  -- A question to the model, with the hint of a session that has tools.
  abbrev pub summarizer_step : Strategy → Text → ToolCallIntent V
  summarizer_step strategy prompt = llm_generate strategy prompt (some summarizer_system_hint)

  unfoldable pub build_plan_with_llm : (Text → Text) → Text → Strategy → List (ToolCallIntent V)
  build_plan_with_llm sanitize task strategy =
      llm_generate strategy (sanitize task) (some chat_system_hint) ∷ []

  unfoldable pub build_plan_fs_then_llm :
      (Text → Text) → Text → Text → Text → Text → Strategy → List (ToolCallIntent V)
  unfolding listing_prompt
  build_plan_fs_then_llm sanitize task id root path strategy =
      fs_list_dir id root path ∷ summarizer_step strategy (listing_prompt (sanitize task)) ∷ []

  unfoldable pub build_plan_file_read_then_llm :
      (Text → Text) → Text → Text → Text → Text → Strategy → List (ToolCallIntent V)
  unfolding content_prompt
  build_plan_file_read_then_llm sanitize task id root path strategy =
      fs_read_file id root path ∷ summarizer_step strategy (content_prompt (sanitize task)) ∷ []

  unfoldable pub build_plan_list_read_summarize :
      (Text → Text) → Text → Text → Text → Strategy → List (ToolCallIntent V)
  unfolding recent_prompt
  build_plan_list_read_summarize sanitize task id root strategy =
      fs_list_dir id root (codes ".")
      ∷ fs_read_file id root most_recent_file_placeholder
      ∷ summarizer_step strategy (recent_prompt (sanitize task))
      ∷ []

  -- The questions that are asked where no place is found. The one for a folder is not sanitized.
  unfoldable pub ask_for_folder : Text → List (ToolCallIntent V)
  unfolding folder_question
  ask_for_folder task = summarizer_step cheap_model (folder_question task) ∷ []

  unfoldable pub ask_for_file : (Text → Text) → Text → List (ToolCallIntent V)
  unfolding file_question
  ask_for_file sanitize task = summarizer_step cheap_model (file_question (sanitize task)) ∷ []
