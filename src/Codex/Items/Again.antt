-- ===== src/Codex/Items/Again.antt =====
-- internal/provider/openai/codex_request.go: items that are sanitised stay as they are.
use one_llm_router.Prelude.{
  String, ◌≡◌, refl, ap, subst, true, false, Option, none, some, str_eq, inl, inr, Bool-cases,
  tests_both, not_both, not-true, if_intro, if◌then◌else◌,
}
use one_llm_router.Prelude.Result.{ok, Yields, >>=-Yields, Yields-eq}
use one_llm_router.Json.{
  Json, Items, Fields, done, entry, text, array, object, nil, cons, get, every, every_entry,
  or_null, at, text_or_empty,
}
use one_llm_router.Json.Laws.{get-put_same, get-put_other, put-put_same}
use one_llm_router.Codex.Items.{
  sanitize_codex_content_part, Encoding, is_reasoning_key, is_reasoning_part, without_reasoning,
  sanitize_parts, sanitize_codex_content, sanitize_fields, sanitize_codex_input_item,
  sanitize_codex_input_items, extract_from, codex_assistant_text_part_types,
  normalize_codex_assistant_content_part, assistant_parts, normalize_codex_assistant_content,
  normalize_codex_assistant_input_item, normalize_codex_tool_input_item,
  normalize_codex_role_input_item, role_item, output_text_or, with_content, text_object,
  call_output, call_id_of, or_instead, normalize_codex_tool_output_value,
}
use one_llm_router.Codex.Items.Clean.{
  keeps_key, is_clean_part, is_clean_content, is_clean_field, is_clean_item,
  sanitize_codex_input_items-clean,
}

without_reasoning-eq : (m : Fields) → every_entry keeps_key m ≡ true → without_reasoning m ≡ m
unfolding without_reasoning
without_reasoning-eq done h = refl
without_reasoning-eq (entry k v m) h =
    let (plain, rest) = tests_both (keeps_key k v) (every_entry keeps_key m) h in
    rw (not-true (is_reasoning_key k) plain) (ap (entry k v) (without_reasoning-eq m rest))

-- A clean part is not left out and loses nothing.
part-eq : (part : Json) → is_clean_part part ≡ true → sanitize_codex_content_part part ≡ some part
part-eq (object m) h =
    let (kept, rest) = not_both (is_reasoning_part m) (every_entry keeps_key m) h in
    rw (kept, without_reasoning-eq m rest) refl
part-eq _ h = refl

sanitize_parts-eq :
    (parts : Items) → every is_clean_part parts ≡ true → sanitize_parts parts ≡ parts
unfolding sanitize_parts
sanitize_parts-eq nil h = refl
sanitize_parts-eq (cons part rest) h =
    let (kept, later) = tests_both (is_clean_part part) (every is_clean_part rest) h in
    rw (part-eq part kept) (ap (cons part) (sanitize_parts-eq rest later))

sanitize_content-eq :
    (content : Json)
    → is_clean_content content ≡ true
    → sanitize_codex_content content ≡ some content
sanitize_content-eq (array parts) h = ap (λ ps. some (array ps)) (sanitize_parts-eq parts h)
sanitize_content-eq (object m) h = part-eq (object m) h
sanitize_content-eq _ h = refl

sanitize_fields-eq : (m : Fields) → every_entry is_clean_field m ≡ true → sanitize_fields m ≡ m
unfolding sanitize_fields
sanitize_fields-eq done h = refl
sanitize_fields-eq (entry key value m) h =
    let (clean, rest) = tests_both (is_clean_field key value) (every_entry is_clean_field m) h in
    let (plain, content) = not_both (is_reasoning_key key) _ clean in
    elim (Bool-cases (str_eq key "content")) [
      | inl same ↦
          rw
            (
              plain,
              same,
              sanitize_content-eq value
                  (subst (λ b. (if b then is_clean_content value else true) ≡ true) same content),
            )
            (ap (entry key value) (sanitize_fields-eq m rest))
      | inr other ↦ rw (plain, other) (ap (entry key value) (sanitize_fields-eq m rest))
    ]

-- An assistant's content is rewritten once.
output_text-again :
    (s : String)
    → normalize_codex_assistant_content_part (text_object "output_text" s)
      ≡ text_object "output_text" s
unfolding normalize_codex_assistant_content_part extract_from get
output_text-again s = refl

extracted-again :
    (m : Fields) (found : Option String)
    → extract_from codex_assistant_text_part_types m ≡ found
    → normalize_codex_assistant_content_part (output_text_or (object m) found)
      ≡ output_text_or (object m) found
unfolding normalize_codex_assistant_content_part
extracted-again m none e = rw e refl
extracted-again m (some s) e = output_text-again s

part-again :
    (part : Json)
    → normalize_codex_assistant_content_part (normalize_codex_assistant_content_part part)
      ≡ normalize_codex_assistant_content_part part
unfolding normalize_codex_assistant_content_part
part-again (text s) = output_text-again s
part-again (object m) = extracted-again m _ refl
part-again _ = refl

parts-again : (parts : Items) → assistant_parts (assistant_parts parts) ≡ assistant_parts parts
unfolding assistant_parts
parts-again nil = refl
parts-again (cons part rest) =
    rw (part-again part)
      (ap (cons (normalize_codex_assistant_content_part part)) (parts-again rest))

content-again :
    (content : Json)
    → normalize_codex_assistant_content (normalize_codex_assistant_content content)
      ≡ normalize_codex_assistant_content content
unfolding normalize_codex_assistant_content assistant_parts
content-again (text s) = ap (λ part. array (cons part nil)) (output_text-again s)
content-again (array parts) = ap array (parts-again parts)
content-again (object m) = ap (λ part. array (cons part nil)) (part-again (object m))
content-again _ = refl

-- An item of the assistant is rewritten once, and keeps its role.
item-again :
    (m : Fields) (content : Option Json)
    → get m "content" ≡ content
    → normalize_codex_assistant_input_item (with_content m content) ≡ with_content m content
unfolding normalize_codex_assistant_input_item
item-again m none e = rw e refl
item-again m (some content) e =
    rw (get-put_same m "content" (normalize_codex_assistant_content content), content-again content)
      (put-put_same m "content" (normalize_codex_assistant_content content))

role-kept : (m : Fields) (content : Option Json) → at (with_content m content) "role" ≡ at m "role"
role-kept m none = refl
role-kept m (some content) =
    ap or_null (get-put_other m "content" (normalize_codex_assistant_content content) "role" refl)

module _ (std : Encoding) where
  -- An item that the role asks nothing of.
  IsSettled : Json → Type 0
  IsSettled (object m) = normalize_codex_role_input_item std m ≡ ok (object m)
  IsSettled _ = Unit

  assistant-IsSettled :
      (m : Fields) (role : String)
      → text_or_empty (at m "role") ≡ role
      → str_eq role "assistant" ≡ true
      → IsSettled (object (normalize_codex_assistant_input_item m))
  unfolding IsSettled normalize_codex_role_input_item normalize_codex_assistant_input_item
  assistant-IsSettled m role e assistant =
      rw (role-kept m (get m "content"), e, assistant)
        (ap (λ item. ok (object item)) (item-again m (get m "content") refl))

  call_output-IsSettled : (id output : String) → IsSettled (call_output id output)
  unfolding IsSettled normalize_codex_role_input_item get
  call_output-IsSettled id output = refl

  tool-IsSettled : (m : Fields) → Yields IsSettled (normalize_codex_tool_input_item std m)
  unfolding normalize_codex_tool_input_item
  tool-IsSettled m =
      if_intro (Yields IsSettled) (str_eq (call_id_of m) "") (λ unnamed. tt)
        (λ named.
          >>=-Yields IsSettled
            (normalize_codex_tool_output_value std (or_instead (at m "output") (at m "content")))
            (λ output. ok (call_output (call_id_of m) output))
            (λ output read. call_output-IsSettled (call_id_of m) output))

  plain-IsSettled :
      (m : Fields) (role : String)
      → text_or_empty (at m "role") ≡ role
      → str_eq role "assistant" ≡ false
      → str_eq role "tool" ≡ false
      → IsSettled (object m)
  unfolding IsSettled normalize_codex_role_input_item
  plain-IsSettled m role e other plain = rw (e, other, plain) refl

  role_item-IsSettled :
      (m : Fields) (role : String)
      → text_or_empty (at m "role") ≡ role
      → Yields IsSettled (role_item std m role)
  role_item-IsSettled m role e =
      if_intro (Yields IsSettled) (str_eq role "assistant")
        (λ assistant. assistant-IsSettled m role e assistant)
        (λ other.
          if_intro (Yields IsSettled) (str_eq role "tool") (λ tool. tool-IsSettled m)
            (λ plain. plain-IsSettled m role e other plain))

  item-IsSettled : (item : Json) → Yields IsSettled (sanitize_codex_input_item std item)
  unfolding normalize_codex_role_input_item IsSettled
  item-IsSettled (object m) =
      role_item-IsSettled (sanitize_fields m) (text_or_empty (at (sanitize_fields m) "role")) refl
  item-IsSettled item = tt

  settled-eq :
      (item : Json)
      → is_clean_item item ≡ true
      → IsSettled item
      → sanitize_codex_input_item std item ≡ ok item
  unfolding IsSettled
  settled-eq (object m) clean settled = rw (sanitize_fields-eq m clean) settled
  settled-eq _ clean settled = refl

  -- Clean items whose roles ask nothing of them.
  IsFinal : Items → Type 0
  IsFinal out = every is_clean_item out ≡ true → sanitize_codex_input_items std out ≡ ok out

  items-IsFinal : (items : Items) → Yields IsFinal (sanitize_codex_input_items std items)
  unfolding sanitize_codex_input_items IsFinal
  items-IsFinal nil = λ clean. refl
  items-IsFinal (cons item rest) =
      >>=-Yields IsFinal (sanitize_codex_input_item std item) _ (λ kept sanitized.
        >>=-Yields IsFinal (sanitize_codex_input_items std rest) _ (λ others looped clean.
          let (first, later) = tests_both (is_clean_item kept) (every is_clean_item others) clean in
          rw
            (
              settled-eq kept first (Yields-eq IsSettled _ kept (item-IsSettled item) sanitized),
              Yields-eq IsFinal _ others (items-IsFinal rest) looped later,
            )
            refl))

  -- Items that came out of the sanitising come out of it again unchanged.
  pub sanitized_again :
      (items out : Items)
      → sanitize_codex_input_items std items ≡ ok out
      → sanitize_codex_input_items std out ≡ ok out
  unfolding IsFinal
  sanitized_again items out h =
      Yields-eq IsFinal (sanitize_codex_input_items std items) out (items-IsFinal items) h (
        Yields-eq (λ xs. every is_clean_item xs ≡ true) (sanitize_codex_input_items std items) out
          (sanitize_codex_input_items-clean std items) h)
