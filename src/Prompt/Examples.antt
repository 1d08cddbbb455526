-- ===== src/Prompt/Examples.antt =====
-- A prompt with a memory of the session alone.
use santi.Base.{◌≡◌, refl, none, some}
use santi.Base.Texts.{join}
use santi.Prompt.{RuntimePromptSource, build_runtime_prompt, render}
use santi.Prompt.Kept.{kept_parts, render-build_runtime_prompt}

abbrev source : RuntimePromptSource
source = record {
  session_id = some "s";
  soul_id = none;
  soul_memory = some "  ";
  session_memory = some "likes tea";
  request_instructions = none;
}

rendered :
    render (build_runtime_prompt source)
    ≡ some
        "You are santi, a customized personal agent service.\n\nlikes tea\n\n<santi-meta>\nsession_id: s\nhas_soul_memory: false\nhas_session_memory: true\nhas_request_instructions: false\n</santi-meta>"
unfolding render build_runtime_prompt
rendered = refl

render-build_runtime_prompt_example :
    render (build_runtime_prompt source) ≡ some (join "\n\n" (kept_parts source))
render-build_runtime_prompt_example = render-build_runtime_prompt source
