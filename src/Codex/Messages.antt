-- ===== src/Codex/Messages.antt =====
-- internal/provider/openai/forwarder.go: chat messages made into instructions and input items.
use Prim.Native.String
use one_llm_router.Prelude.{
  String, Bool, true, false, Option, none, some, List, [], ◌∷◌, ◌||◌, str_eq, trim_space,
  if◌then◌else◌,
}
use one_llm_router.Json.{
  Json, Items, Fields, done, entry, null, bool, number, text, array, object, nil, cons, at, as_text,
  text_or_empty,
}
use one_llm_router.Prelude.Result.{ok, err}
use one_llm_router.Codex.Checks.{Checked}
use one_llm_router.Codex.Items.{
  Encoding, concat, first_string, call_output, text_object, input_text_message,
}

-- inputMissingOrEmpty
abbrev pub input_missing_or_empty : Json → Bool
input_missing_or_empty null = true
input_missing_or_empty (array nil) = true
input_missing_or_empty _ = false

-- strings.Join(parts, "\n\n")
unfoldable pub join_paragraphs : List String → String
join_paragraphs [] = ""
join_paragraphs (s ∷ []) = s
join_paragraphs (s ∷ t ∷ rest) = String.◌++◌ s (String.◌++◌ "\n\n" (join_paragraphs (t ∷ rest)))

-- if s != "" { parts = append(parts, s) }, in front of what the rest of the loop appends
abbrev pub nonempty_part : String → List String → List String
nonempty_part s rest = if str_eq s "" then rest else s ∷ rest

-- the first of them that is a string
abbrev text_or : Option String → Option String → Option String
text_or none other = other
text_or (some s) other = some s

abbrev first_text : List Json → Option String
first_text [] = none
first_text (value ∷ values) = text_or (as_text value) (first_text values)

abbrev text_or_marshalled : Option String → Checked String → String
text_or_marshalled (some s) marshalled = s
text_or_marshalled none (ok s) = s
text_or_marshalled none (err e) = ""

-- What one message adds: to the instructions, or to the input.
abbrev pub Added : Type 0
Added = List String × Items

abbrev pub nonempty_item : String → Json → Items → Items
nonempty_item s item input = if str_eq s "" then input else cons item input

abbrev pub assistant_message : String → Json
assistant_message s = object (
    entry "role" (text "assistant")
      (entry "content" (array (cons (text_object "output_text" s) nil)) done))

module _ (std : Encoding) where
  -- contentText
  unfoldable mutual
    pub content_text : Json → String
    content_text (text s) = s
    content_text (array xs) = concat (content_texts xs)
    content_text (object m) =
        text_or_marshalled (first_text (at m "text" ∷ at m "refusal" ∷ at m "content" ∷ []))
          (std.marshal (object m))
    content_text null = ""
    content_text (bool b) = ""
    content_text (number n) = ""

    pub content_texts : Items → List String
    content_texts nil = []
    content_texts (cons x xs) = nonempty_part (content_text x) (content_texts xs)

  -- the switch on the role, in front of what the rest of the messages add
  unfoldable pub add_message : String → Fields → Added → Added
  add_message role msg (parts, input) =
      let said = content_text (at msg "content") in
      let id = first_string (at msg "tool_call_id" ∷ at msg "toolCallId" ∷ at msg "call_id" ∷ []) in
      if str_eq role "system" || str_eq role "developer"
      then (nonempty_part said parts, input)
      else if str_eq role "assistant"
      then (parts, cons (assistant_message said) input)
      else if str_eq role "tool"
      then (parts, nonempty_item id (call_output id said) input)
      else (parts, nonempty_item said (input_text_message said) input)

  -- the loop of coerceMessages
  unfoldable pub add_messages : Items → Added
  add_messages nil = ([], nil)
  add_messages (cons (object msg) rest) =
      add_message (text_or_empty (at msg "role")) msg (add_messages rest)
  add_messages (cons _ rest) = add_messages rest

  -- coerceMessages, of instructions that are a string and messages that are an array
  unfoldable pub coerce_messages : String → Items → String × Items
  coerce_messages instructions messages =
      let (parts, input) = add_messages messages in
      let all = (if str_eq (trim_space instructions) "" then parts else instructions ∷ parts) in
      (join_paragraphs all, input)
