-- ===== src/Prompt/Kept.antt =====
-- crates/santi-core/src/service/session/kernel/runtime_prompt.rs: the sections of a built prompt and its text.
use santi.Base.{
  String, Bool, false, not, ◌≡◌, refl, ap, ◌∙◌, Option, none, some, List, [], ◌∷◌, ◌++◌, filter,
  if◌then◌else◌, arith, Bool-cases, inl, inr,
}
use Prim.Native.String.{◌++◌ as text_append}
use santi.Base.Texts.{is_whitespace, append-not_blank, is_blank, join, format}
use santi.Prompt.{
  RuntimePromptSource, RuntimePrompt, build_runtime_prompt, render, prompt_parts, not_blank, pushed,
  meta_block,
}

abbrev shown : String → Bool
shown part = not (is_blank part)

filter-shown_append :
    (xs ys : List String) → filter shown (xs ++ ys) ≡ filter shown xs ++ filter shown ys
filter-shown_append [] ys = refl
filter-shown_append (x ∷ xs) ys = ground (arith, filter-shown_append xs ys)

pushed_kept : (o : Option String) → filter shown (pushed (not_blank o)) ≡ pushed (not_blank o)
unfolding not_blank
pushed_kept none = refl
pushed_kept (some s) = elim (Bool-cases (is_blank s)) [ inl e ↦ rw e refl | inr e ↦ rw (e, e) refl ]

sections_kept :
    (source : RuntimePromptSource)
    → filter shown (build_runtime_prompt source).sections ≡ (build_runtime_prompt source).sections
unfolding build_runtime_prompt
sections_kept source =
    let a = not_blank source.soul_memory in
    let b = not_blank source.session_memory in
    let c = not_blank source.request_instructions in
    filter-shown_append (pushed a) (pushed b ++ pushed c)
    ∙ ap (λ xs. xs ++ filter shown (pushed b ++ pushed c)) (pushed_kept source.soul_memory)
    ∙ ap (λ xs. pushed a ++ xs)
        (filter-shown_append (pushed b) (pushed c)
          ∙ ap (λ xs. xs ++ filter shown (pushed c)) (pushed_kept source.session_memory)
          ∙ ap (λ xs. pushed b ++ xs) (pushed_kept source.request_instructions))

no_space : is_whitespace "<" ≡ false
unfolding is_whitespace
no_space = refl

letter : is_whitespace "Y" ≡ false
unfolding is_whitespace
letter = refl

meta_shown : (prompt : RuntimePrompt) → is_blank (meta_block prompt.meta) ≡ false
unfolding meta_block format
meta_shown prompt = append-not_blank "<" "santi-meta>\n" _ no_space

abbrev intro : String
intro = "You are santi, a customized personal agent service."

joined_shown : (xs : List String) → is_blank (join "\n\n" (intro ∷ xs)) ≡ false
unfolding join is_blank
joined_shown [] = refl
joined_shown (x ∷ xs) =
    append-not_blank "Y" "ou are santi, a customized personal agent service."
      (text_append "\n\n" (join "\n\n" (x ∷ xs))) letter

-- The parts of a built prompt, none of which is blank.
abbrev pub kept_parts : RuntimePromptSource → List String
kept_parts source =
    intro
    ∷ ((pushed (not_blank source.soul_memory)
          ++ (pushed (not_blank source.session_memory)
              ++ pushed (not_blank source.request_instructions)))
        ++ meta_block (build_runtime_prompt source).meta ∷ [])

parts_kept :
    (source : RuntimePromptSource)
    → filter shown (prompt_parts (build_runtime_prompt source)) ≡ kept_parts source
unfolding prompt_parts build_runtime_prompt is_blank
parts_kept source =
    let prompt = build_runtime_prompt source in
    ap (λ xs. intro ∷ xs)
      (filter-shown_append prompt.sections (meta_block prompt.meta ∷ [])
        ∙ ap (λ xs. xs ++ filter shown (meta_block prompt.meta ∷ [])) (sections_kept source)
        ∙ ap (λ b. prompt.sections ++ (if not b then meta_block prompt.meta ∷ [] else []))
            (meta_shown prompt))

-- A built prompt is always rendered: the introduction, then the soul's memory, the session's
-- memory and the instructions of the request, each if it is not blank, then the block of facts,
-- with an empty line between them and nothing left out.
pub render-build_runtime_prompt :
    (source : RuntimePromptSource)
    → render (build_runtime_prompt source) ≡ some (join "\n\n" (kept_parts source))
unfolding render
render-build_runtime_prompt source = rw (parts_kept source, joined_shown _) refl
