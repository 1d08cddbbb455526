-- ===== src/Send/Instructions.antt =====
-- crates/santi-runtime/src/runtime/prompt.rs: the instructions of a request to a provider.
use santi.Base.{String, not, Option, none, some, List, [], ◌∷◌, ◌++◌, filter, if◌then◌else◌}
use santi.Base.Texts.{format, join, is_blank}
use santi.Prompt.{RuntimePrompt, render, pushed}
use santi.Send.{RuntimeSelfFacts}
use santi.Tools.Types.{ToolRuntimeContext}
use santi.Tools.Catalog.{tooling_instructions}

abbrev assessment_lines : List String
assessment_lines =
    "<santi-self-assessment>" ∷ "When asked to assess your own runtime or product capability:"
    ∷ "- Ground the answer in visible facts from the santi-meta block, the santi-runtime block, the tool list, and the current conversation."
    ∷ "- When tool results are available, label tool-confirmed facts separately from runtime/context-only facts and unknowns."
    ∷ "- Preserve the user's requested language, section names, and bullet limits when they provide them."
    ∷ "- If the user does not provide section names, separate connected capabilities, unknowns, blockers, and the next delivery action."
    ∷ "- Keep self-assessments concise enough for the product loop; default to 1-3 bullets per section unless the user asks for a deep audit."
    ∷ "- Treat missing facts as unknown; do not infer service health, permissions, durable product-ledger state, or external process state unless visible or tool-confirmed."
    ∷ "- Keep the next action tied to the integrated stim -> santi product loop."
    ∷ "</santi-self-assessment>" ∷ []

unfoldable pub render_self_assessment_instructions : String
unfolding join
render_self_assessment_instructions = join "\n" assessment_lines

-- `unwrap_or("unknown")`.
abbrev or_unknown : Option String → String
or_unknown none = "unknown"
or_unknown (some s) = s

unfoldable pub render_runtime_meta : ToolRuntimeContext → RuntimeSelfFacts → List String
unfolding format
render_runtime_meta runtime_context self_facts =
    format ("service_name: " ∷ self_facts.service_name ∷ [])
    ∷ format ("assembly_mode: " ∷ self_facts.assembly_mode ∷ [])
    ∷ format ("launch_profile: " ∷ or_unknown self_facts.launch_profile ∷ [])
    ∷ format ("bind_addr: " ∷ or_unknown self_facts.bind_addr ∷ [])
    ∷ format ("provider_model: " ∷ self_facts.provider_model ∷ [])
    ∷ format ("provider_api: " ∷ self_facts.provider_api ∷ [])
    ∷ format ("provider_gateway_base_url: " ∷ or_unknown self_facts.provider_gateway_base_url ∷ [])
    ∷ format ("SANTI_SOUL_MEMORY_DIR: " ∷ runtime_context.soul_memory_dir ∷ [])
    ∷ format ("SANTI_SESSION_MEMORY_DIR: " ∷ runtime_context.session_memory_dir ∷ [])
    ∷ format ("fallback_cwd: " ∷ runtime_context.fallback_cwd ∷ [])
    ∷ []

-- The list of facts is never empty, so its block is always there.
unfoldable pub instruction_parts :
    RuntimePrompt → ToolRuntimeContext → RuntimeSelfFacts → List String
unfolding render render_self_assessment_instructions render_runtime_meta tooling_instructions format
    join
instruction_parts core_prompt runtime_context self_facts =
    pushed (render core_prompt)
    ++ (render_self_assessment_instructions
        ∷ format (
            "<santi-runtime>\n"
            ∷ join "\n" (render_runtime_meta runtime_context self_facts)
            ∷ "\n</santi-runtime>"
            ∷ [])
        ∷ tooling_instructions
        ∷ [])

unfoldable pub render_runtime_instructions :
    RuntimePrompt → ToolRuntimeContext → RuntimeSelfFacts → Option String
unfolding instruction_parts is_blank join
render_runtime_instructions core_prompt runtime_context self_facts =
    let rendered = join "\n\n" (
      filter (λ part. not (is_blank part))
        (instruction_parts core_prompt runtime_context self_facts)) in
    if is_blank rendered then none else some rendered
