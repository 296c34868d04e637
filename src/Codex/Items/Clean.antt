-- ===== src/Codex/Items/Clean.antt =====
-- internal/provider/openai/codex_request.go: what the sanitised items are free of.
use one_llm_router.Prelude.{
  String, ◌≡◌, refl, Bool, true, false, not, ◌&&◌, Option, none, some, arith, str_eq, inl, inr,
  told_apart, ap, Bool-cases, if_intro, if◌then◌else◌,
}
use one_llm_router.Prelude.Result.{ok, Yields, >>=-Yields, Yields-eq}
use one_llm_router.Json.{
  Json, Items, Fields, done, entry, text, array, object, nil, cons, get, every, every_entry,
  or_null, at, text_or_empty,
}
use one_llm_router.Json.Laws.{every_entry-put, every_entry-get}
use one_llm_router.Codex.Tools.{type_of}
use one_llm_router.Codex.Items.{
  Encoding, is_reasoning_key, is_reasoning_part, without_reasoning, sanitize_parts,
  sanitize_codex_content, sanitize_fields, sanitize_codex_input_item, sanitize_codex_input_items,
  extract_from, codex_assistant_text_part_types, normalize_codex_assistant_content_part,
  assistant_parts, normalize_codex_assistant_content, normalize_codex_assistant_input_item,
  normalize_codex_tool_input_item, normalize_codex_role_input_item, role_item, output_text_or,
  with_content, kept_content, text_object, call_output, call_id_of, or_instead,
  normalize_codex_tool_output_value,
}

-- An object without the keys of interleaved reasoning.
abbrev pub keeps_key : String → Json → Bool
keeps_key key value = not (is_reasoning_key key)

-- A part of a content that has neither a type nor a key of interleaved reasoning.
abbrev pub is_clean_part : Json → Bool
is_clean_part (object m) = not (is_reasoning_part m) && every_entry keeps_key m
is_clean_part _ = true

abbrev pub is_clean_content : Json → Bool
is_clean_content (array parts) = every is_clean_part parts
is_clean_content content = is_clean_part content

abbrev pub is_clean_field : String → Json → Bool
is_clean_field key value =
    not (is_reasoning_key key) && (if str_eq key "content" then is_clean_content value else true)

-- An item free of them, and so are the parts of its content.
abbrev pub is_clean_item : Json → Bool
is_clean_item (object m) = every_entry is_clean_field m
is_clean_item _ = true

get-without_reasoning :
    (m : Fields) (key : String)
    → is_reasoning_key key ≡ false
    → get (without_reasoning m) key ≡ get m key
unfolding get without_reasoning
get-without_reasoning done key h = refl
get-without_reasoning (entry k v m) key h = elim (Bool-cases (is_reasoning_key k)) [
  | inl out ↦ rw (out, told_apart is_reasoning_key k key out h) (get-without_reasoning m key h)
  | inr kept ↦ rw (kept, get-without_reasoning m key h) refl
]

without_reasoning-clean : (m : Fields) → every_entry keeps_key (without_reasoning m) ≡ true
unfolding without_reasoning
without_reasoning-clean done = refl
without_reasoning-clean (entry k v m) = elim (Bool-cases (is_reasoning_key k)) [
  | inl out ↦ rw out (without_reasoning-clean m)
  | inr kept ↦ rw (kept, kept) (without_reasoning-clean m)
]

type-kept : (m : Fields) → type_of (without_reasoning m) ≡ type_of m
type-kept m = ap (λ found. text_or_empty (or_null found)) (get-without_reasoning m "type" refl)

clean_object :
    (m : Fields) → is_reasoning_part m ≡ false → is_clean_part (object (without_reasoning m)) ≡ true
clean_object m h = rw (type-kept m, h, without_reasoning-clean m) refl

sanitize_parts-clean : (parts : Items) → every is_clean_part (sanitize_parts parts) ≡ true
unfolding sanitize_parts
sanitize_parts-clean nil = refl
sanitize_parts-clean (cons (object m) rest) = elim (Bool-cases (is_reasoning_part m)) [
  | inl out ↦ rw out (sanitize_parts-clean rest)
  | inr kept ↦ rw (kept, clean_object m kept) (sanitize_parts-clean rest)
]
sanitize_parts-clean (cons _ rest) = sanitize_parts-clean rest

-- A content that is left out, or clean.
IsCleanResult : Option Json → Type 0
IsCleanResult none = Unit
IsCleanResult (some content) = is_clean_content content ≡ true

sanitized_content-clean : (content : Json) → IsCleanResult (sanitize_codex_content content)
unfolding IsCleanResult
sanitized_content-clean (array parts) = sanitize_parts-clean parts
sanitized_content-clean (object m) =
    if_intro IsCleanResult (is_reasoning_part m) (λ out. tt) (λ kept. clean_object m kept)
sanitized_content-clean _ = refl

content_first-clean :
    (key : String) (content : Option Json) (m : Fields)
    → is_reasoning_key key ≡ false
    → IsCleanResult content
    → every_entry is_clean_field m ≡ true
    → every_entry is_clean_field (kept_content key content m) ≡ true
unfolding IsCleanResult
content_first-clean key none m plain clean rest = rest
content_first-clean key (some content) m plain clean rest = ground (arith, plain, clean, rest)

pub sanitize_fields-clean : (m : Fields) → every_entry is_clean_field (sanitize_fields m) ≡ true
unfolding sanitize_fields
sanitize_fields-clean done = refl
sanitize_fields-clean (entry key value m) = elim (Bool-cases (is_reasoning_key key)) [
  | inl out ↦ rw out (sanitize_fields-clean m)
  | inr plain ↦ elim (Bool-cases (str_eq key "content")) [
    | inl same ↦
        rw (plain, same)
          (content_first-clean key (sanitize_codex_content value) (sanitize_fields m) plain
            (sanitized_content-clean value) (sanitize_fields-clean m))
    | inr other ↦ rw (plain, other, plain, other) (sanitize_fields-clean m)
  ]
]

output_text-clean : (s : String) → is_clean_part (text_object "output_text" s) ≡ true
unfolding get
output_text-clean s = refl

-- The part of an assistant's content, rewritten, is as clean as before.
extracted-clean :
    (part : Json) (s : Option String)
    → is_clean_part part ≡ true
    → is_clean_part (output_text_or part s) ≡ true
extracted-clean part none h = h
extracted-clean part (some s) h = output_text-clean s

assistant_part-clean :
    (part : Json)
    → is_clean_part part ≡ true
    → is_clean_part (normalize_codex_assistant_content_part part) ≡ true
unfolding normalize_codex_assistant_content_part
assistant_part-clean (text s) h = output_text-clean s
assistant_part-clean (object m) h =
    extracted-clean (object m) (extract_from codex_assistant_text_part_types m) h
assistant_part-clean _ h = h

assistant_parts-clean :
    (parts : Items)
    → every is_clean_part parts ≡ true
    → every is_clean_part (assistant_parts parts) ≡ true
unfolding assistant_parts
assistant_parts-clean nil h = refl
assistant_parts-clean (cons part rest) h =
    ground (arith, assistant_part-clean part, assistant_parts-clean rest)

assistant_content-clean :
    (content : Json)
    → is_clean_content content ≡ true
    → is_clean_content (normalize_codex_assistant_content content) ≡ true
unfolding normalize_codex_assistant_content
assistant_content-clean (array parts) h = assistant_parts-clean parts h
assistant_content-clean (object part) h = rw (assistant_part-clean (object part) h) refl
assistant_content-clean (text s) h = rw (output_text-clean s) refl
assistant_content-clean _ h = refl

content-clean :
    (m : Fields) (content : Json)
    → every_entry is_clean_field m ≡ true
    → get m "content" ≡ some content
    → is_clean_content content ≡ true
content-clean m content h found = every_entry-get is_clean_field m "content" content h found

assistant_item-clean :
    (m : Fields) (content : Option Json)
    → get m "content" ≡ content
    → every_entry is_clean_field m ≡ true
    → every_entry is_clean_field (with_content m content) ≡ true
assistant_item-clean m none found h = h
assistant_item-clean m (some content) found h =
    every_entry-put is_clean_field m "content" (normalize_codex_assistant_content content) h
      (assistant_content-clean content (content-clean m content h found))

call_output-clean : (id output : String) → is_clean_item (call_output id output) ≡ true
call_output-clean id output = refl

IsCleanItem : Json → Type 0
IsCleanItem item = is_clean_item item ≡ true

module _ (std : Encoding) where
  tool_item-clean : (m : Fields) → Yields IsCleanItem (normalize_codex_tool_input_item std m)
  unfolding normalize_codex_tool_input_item IsCleanItem
  tool_item-clean m =
      if_intro (Yields IsCleanItem) (str_eq (call_id_of m) "") (λ unnamed. tt)
        (λ named.
          >>=-Yields IsCleanItem
            (normalize_codex_tool_output_value std (or_instead (at m "output") (at m "content")))
            (λ output. ok (call_output (call_id_of m) output))
            (λ output read. call_output-clean (call_id_of m) output))

  role_item-clean :
      (m : Fields) (role : String)
      → every_entry is_clean_field m ≡ true
      → Yields IsCleanItem (role_item std m role)
  unfolding normalize_codex_assistant_input_item IsCleanItem
  role_item-clean m role h =
      if_intro (Yields IsCleanItem) (str_eq role "assistant")
        (λ assistant. assistant_item-clean m _ refl h)
        (λ other.
          if_intro (Yields IsCleanItem) (str_eq role "tool") (λ tool. tool_item-clean m)
            (λ plain. h))

  sanitize_item-clean : (item : Json) → Yields IsCleanItem (sanitize_codex_input_item std item)
  unfolding normalize_codex_role_input_item IsCleanItem
  sanitize_item-clean (object m) =
      role_item-clean (sanitize_fields m) (text_or_empty (at (sanitize_fields m) "role"))
        (sanitize_fields-clean m)
  sanitize_item-clean item = refl

  -- Items that are sanitised without an error hold no reasoning keys, and the parts of their
  -- contents neither such keys nor such types.
  pub sanitize_codex_input_items-clean :
      (items : Items)
      → Yields (λ out. every is_clean_item out ≡ true) (sanitize_codex_input_items std items)
  unfolding sanitize_codex_input_items IsCleanItem
  sanitize_codex_input_items-clean nil = refl
  sanitize_codex_input_items-clean (cons item rest) =
      >>=-Yields _ (sanitize_codex_input_item std item) _ (λ kept sanitized.
        >>=-Yields _ (sanitize_codex_input_items std rest) _ (λ others looped.
          rw (Yields-eq IsCleanItem _ kept (sanitize_item-clean item) sanitized)
            (Yields-eq _ _ others (sanitize_codex_input_items-clean rest) looped)))
