-- ===== src/Prompt.antt =====
-- crates/santi-core/src/service/session/kernel/runtime_prompt.rs: the prompt that a provider is
-- given beside the messages.
pub mod Kept
pub mod Examples
use santi.Base.{
  String, Bool, true, false, not, Option, none, some, List, [], ◌∷◌, ◌++◌, filter, if◌then◌else◌,
}
use santi.Base.Texts.{format, join, is_blank}

pub record RuntimePromptMeta : Type 0 where
  pub session_id : Option String
  pub soul_id : Option String
  pub has_soul_memory : Bool
  pub has_session_memory : Bool
  pub has_request_instructions : Bool

pub record RuntimePrompt : Type 0 where
  pub meta : RuntimePromptMeta
  pub sections : List String

pub record RuntimePromptSource : Type 0 where
  pub session_id : Option String
  pub soul_id : Option String
  pub soul_memory : Option String
  pub session_memory : Option String
  pub request_instructions : Option String

-- `.filter(|text| !text.trim().is_empty())` of an option.
unfoldable pub not_blank : Option String → Option String
unfolding is_blank
not_blank none = none
not_blank (some s) = if is_blank s then none else some s

abbrev pub is_some : Option String → Bool
is_some none = false
is_some (some s) = true

-- `if let Some(text) = … { sections.push(text) }`.
abbrev pub pushed : Option String → List String
pushed none = []
pushed (some s) = s ∷ []

unfoldable pub build_runtime_prompt : RuntimePromptSource → RuntimePrompt
unfolding not_blank
build_runtime_prompt source =
    let soul_memory = not_blank source.soul_memory in
    let session_memory = not_blank source.session_memory in
    let request_instructions = not_blank source.request_instructions in
    record {
      meta = record {
        session_id = source.session_id;
        soul_id = source.soul_id;
        has_soul_memory = is_some soul_memory;
        has_session_memory = is_some session_memory;
        has_request_instructions = is_some request_instructions;
      };
      sections = pushed soul_memory ++ (pushed session_memory ++ pushed request_instructions);
    }

-- `{}` of a `bool`.
abbrev show_bool : Bool → String
show_bool true = "true"
show_bool false = "false"

abbrev line_of : String → Option String → List String
line_of name none = []
line_of name (some s) = format (name ∷ ": " ∷ s ∷ []) ∷ []

unfoldable pub meta_lines : RuntimePromptMeta → List String
unfolding format
meta_lines meta =
    line_of "session_id" meta.session_id
    ++ (line_of "soul_id" meta.soul_id
        ++ (format ("has_soul_memory: " ∷ show_bool meta.has_soul_memory ∷ [])
            ∷ format ("has_session_memory: " ∷ show_bool meta.has_session_memory ∷ [])
            ∷ format ("has_request_instructions: " ∷ show_bool meta.has_request_instructions ∷ [])
            ∷ []))

-- The list of lines is never empty, so the block is always there.
unfoldable pub meta_block : RuntimePromptMeta → String
unfolding meta_lines format join
meta_block meta = format ("<santi-meta>\n" ∷ join "\n" (meta_lines meta) ∷ "\n</santi-meta>" ∷ [])

unfoldable pub prompt_parts : RuntimePrompt → List String
unfolding meta_block
prompt_parts prompt =
    "You are santi, a customized personal agent service."
    ∷ (prompt.sections ++ meta_block prompt.meta ∷ [])

unfoldable pub render : RuntimePrompt → Option String
unfolding prompt_parts is_blank join
render prompt =
    let rendered = join "\n\n" (filter (λ part. not (is_blank part)) (prompt_parts prompt)) in
    if is_blank rendered then none else some rendered
