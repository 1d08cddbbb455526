-- ===== src/Tools/Catalog.antt =====
-- crates/santi-runtime/src/runtime/tools/catalog.rs: what a provider is told of the tools.
use santi.Base.{String, false, List, [], ◌∷◌}
use santi.Base.Texts.{join}
use santi.Model.Json.{Value, Items}
use santi.Model.Provider.{ProviderTool}
use santi.Tools.Results.{object_of}

abbrev tooling_lines : List String
tooling_lines =
    "<santi-tools>" ∷ "Available tools:"
    ∷ "- write_soul_memory(text: string): replace the current soul_memory core index text."
    ∷ "- write_session_memory(text: string): replace the current session_memory core index text."
    ∷ "- bash(command: string, cwd?: string): run a local bash command inside the current execution workspace."
    ∷ "Rules:"
    ∷ "- soul_memory and session_memory are replace-whole core indexes, not append-only note stores."
    ∷ "- Use write_soul_memory or write_session_memory only when you intend to replace the full core index text for that layer."
    ∷ "- Do not pretend that repeated memory writes create separate durable note objects."
    ∷ "- When the user wants multiple notes, structured records, drafts, or richer memory material, use bash with SANTI_SOUL_MEMORY_DIR or SANTI_SESSION_MEMORY_DIR to manage files, then optionally refresh the corresponding core index."
    ∷ "- Treat the core memory text as the stable index and the *_MEMORY_DIR directories as free-form working memory spaces."
    ∷ "- Use bash when the user asks you to inspect or run something in the local workspace, especially when working with files inside SANTI_SOUL_MEMORY_DIR or SANTI_SESSION_MEMORY_DIR."
    ∷ "- Prefer a single bash call that contains the exact command sequence needed for the current task."
    ∷ "- Bash stdout/stderr are captured to runtime artifact files. Normal tool output is truncated in the stored tool result when it is large; model-facing tool output uses a short preview plus original sizes and artifact paths so the next reply can continue without repeating large stdout/stderr."
    ∷ "- If bash output exceeds the hard runtime limit or the command times out, treat the tool result as incomplete and explain the fallback."
    ∷ "- Inside the container runtime, prefer plain HTTPS git URLs for GitHub clones (for example `git clone https://github.com/owner/repo.git`)."
    ∷ "- Do not rely on SSH GitHub clone paths inside the container unless the runtime explicitly says SSH is available."
    ∷ "- When GitHub tokens are present, the bash tool automatically rewrites plain `https://github.com/...` git operations to authenticated HTTPS for that command."
    ∷ "- Prefer `git clone https://github.com/...` over `gh repo clone` for private GitHub workspace bootstrap inside the container."
    ∷ "- Do not claim memory has been updated unless the tool call has completed."
    ∷ "- After a successful memory update, reply briefly and do not repeat the saved content unless the user asks."
    ∷ "</santi-tools>" ∷ []

unfoldable pub tooling_instructions : String
unfolding join
tooling_instructions = join "\n" tooling_lines

abbrev text_parameter : String → Value
text_parameter description =
    object_of (("type", Value.text "string") ∷ ("description", Value.text description) ∷ [])

-- An object of these properties, one of which is required.
abbrev parameters : List (String × Value) → String → Value
parameters properties required = object_of (
    ("type", Value.text "object")
    ∷ ("properties", object_of properties)
    ∷ ("required", Value.array (Items.cons (Value.text required) Items.nil))
    ∷ ("additionalProperties", Value.bool false)
    ∷ [])

unfoldable pub provider_tools : List ProviderTool
provider_tools =
    ProviderTool.function (record {
      name = "write_soul_memory";
      description = "Replace the current soul_memory core index text.";
      parameters =
          parameters
            ((
              "text",
              text_parameter "The full replacement text for the current soul_memory core index.",
            )
              ∷ [])
            "text";
    })
    ∷ ProviderTool.function (record {
      name = "write_session_memory";
      description = "Replace the current session_memory core index text.";
      parameters =
          parameters
            ((
              "text",
              text_parameter "The full replacement text for the current session_memory core index.",
            )
              ∷ [])
            "text";
    })
    ∷ ProviderTool.function (record {
      name = "bash";
      description = "Run a local bash command inside the current execution workspace.";
      parameters =
          parameters
            (("command", text_parameter "The bash command to execute.")
              ∷ (
                "cwd",
                text_parameter
                    "Optional working directory. Relative paths resolve from the session fallback cwd.",
              )
              ∷ [])
            "command";
    })
    ∷ []
