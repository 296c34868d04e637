-- ===== src/Codex/Request/Upstream.antt =====
-- internal/provider/openai/codex_request.go: the payload that goes upstream.
use one_llm_router.Prelude.{
  String, ◌≡◌, refl, sym, ◌∙◌, subst, true, false, none, some, List, [], ◌∷◌, In, inl, inr,
  contains, contains-In, if_intro, str_eq, ||_false, ◌⊎◌,
}
use one_llm_router.Prelude.Result.{Yields, >>=-Yields, Yields-eq}
use one_llm_router.Json.{
  Json, Items, Fields, bool, text, array, nil, cons, get, put, delete, at, every,
}
use one_llm_router.Json.Laws.{
  get-put_same, get-put_other, get-delete_same, get-delete_other, delete-absent,
}
use one_llm_router.Codex.Tools.{
  canonicalize_codex_tools, strip_codex_unsupported_upstream_fields,
  codex_unsupported_upstream_fields, delete_all,
}
use one_llm_router.Codex.Items.{
  Encoding, normalize_codex_input, input_of, sanitize_codex_input_items, input_text_message,
  codex_input_has_file_id,
}
use one_llm_router.Codex.Items.Clean.{is_clean_item, sanitize_codex_input_items-clean}
use one_llm_router.Codex.Request.{upstream_payload}
use one_llm_router.Codex.Request.Frame.{Keeps, canonicalize_codex_tools-Keeps}

abbrev pub with_marks : Fields → Fields
with_marks m = put (put m "store" (bool false)) "stream" (bool true)

pub delete_all-Keeps :
    (j : String) (m : Fields) (keys : List String)
    → contains keys j ≡ false
    → Keeps j m (delete_all m keys)
unfolding delete_all
delete_all-Keeps j m [] h = refl
delete_all-Keeps j m (key ∷ keys) h =
    let (first, rest) = ||_false (str_eq key j) (contains keys j) h in
    delete_all-Keeps j (delete m key) keys rest ∙ get-delete_other m key j first

delete_all-absent :
    (j : String) (m : Fields) (keys : List String)
    → (get m j ≡ none) ⊎ In j keys
    → get (delete_all m keys) j ≡ none
unfolding delete_all
delete_all-absent j m [] (inl gone) = gone
delete_all-absent j m [] (inr h) = elim h [ ]
delete_all-absent j m (key ∷ keys) (inl gone) =
    delete_all-absent j (delete m key) keys (inl (delete-absent m key j gone))
delete_all-absent j m (key ∷ keys) (inr (inl e)) =
    delete_all-absent j (delete m key) keys
      (inl (subst (λ k. get (delete m key) k ≡ none) (sym e) (get-delete_same m key)))
delete_all-absent j m (key ∷ keys) (inr (inr h)) = delete_all-absent j (delete m key) keys (inr h)

pub strip-Keeps :
    (j : String) (m : Fields)
    → contains codex_unsupported_upstream_fields j ≡ false
    → str_eq "tools" j ≡ false
    → Keeps j m (strip_codex_unsupported_upstream_fields m)
unfolding strip_codex_unsupported_upstream_fields
strip-Keeps j m h tools =
    delete_all-Keeps j (canonicalize_codex_tools m) codex_unsupported_upstream_fields h
    ∙ canonicalize_codex_tools-Keeps j m tools

pub upstream_payload-Keeps :
    (j : String) (m : Fields)
    → contains codex_unsupported_upstream_fields j ≡ false
    → str_eq "tools" j ≡ false
    → str_eq "store" j ≡ false
    → str_eq "stream" j ≡ false
    → Keeps j m (upstream_payload m)
unfolding upstream_payload
upstream_payload-Keeps j m supported tools store stream =
    strip-Keeps j (with_marks m) supported tools
    ∙ (get-put_other (put m "store" (bool false)) "stream" (bool true) j stream
        ∙ get-put_other m "store" (bool false) j store)

pub upstream_store : (m : Fields) → get (upstream_payload m) "store" ≡ some (bool false)
unfolding upstream_payload
upstream_store m =
    strip-Keeps "store" (with_marks m) refl refl
    ∙ (get-put_other (put m "store" (bool false)) "stream" (bool true) "store" refl
        ∙ get-put_same m "store" (bool false))

pub upstream_stream : (m : Fields) → get (upstream_payload m) "stream" ≡ some (bool true)
unfolding upstream_payload
upstream_stream m =
    strip-Keeps "stream" (with_marks m) refl refl
    ∙ get-put_same (put m "store" (bool false)) "stream" (bool true)

pub strip-absent :
    (m : Fields) (j : String)
    → contains codex_unsupported_upstream_fields j ≡ true
    → get (strip_codex_unsupported_upstream_fields m) j ≡ none
unfolding strip_codex_unsupported_upstream_fields
strip-absent m j h =
    delete_all-absent j (canonicalize_codex_tools m) codex_unsupported_upstream_fields
      (inr (contains-In codex_unsupported_upstream_fields j h))

pub upstream-absent :
    (m : Fields) (j : String)
    → contains codex_unsupported_upstream_fields j ≡ true
    → get (upstream_payload m) j ≡ none
unfolding upstream_payload
upstream-absent m j h = strip-absent (with_marks m) j h

-- An input that is an array of clean items.
pub IsCleanInput : Fields → Type 0
IsCleanInput m =
    (items : Items) × (get m "input" ≡ some (array items)) × (every is_clean_item items ≡ true)

pub kept-IsCleanInput :
    (before after : Fields)
    → get after "input" ≡ get before "input"
    → IsCleanInput before
    → IsCleanInput after
unfolding IsCleanInput
kept-IsCleanInput before after e (items, there, clean) = (items, e ∙ there, clean)

pub upstream-IsCleanInput : (m : Fields) → IsCleanInput m → IsCleanInput (upstream_payload m)
upstream-IsCleanInput m h =
    kept-IsCleanInput m (upstream_payload m) (upstream_payload-Keeps "input" m refl refl refl refl)
      h

message-clean : (s : String) → every is_clean_item (cons (input_text_message s) nil) ≡ true
unfolding get
message-clean s = refl

module _ (std : Encoding) where
  input_of-IsCleanInput : (m : Fields) (input : Json) → Yields IsCleanInput (input_of std m input)
  unfolding IsCleanInput
  input_of-IsCleanInput m (text s) =
      (cons (input_text_message s) nil, get-put_same m "input" _, message-clean s)
  input_of-IsCleanInput m (array items) =
      if_intro (Yields IsCleanInput) (codex_input_has_file_id items) (λ file. tt)
        (λ no_file.
          >>=-Yields IsCleanInput (sanitize_codex_input_items std items) _ (λ out sanitized. (
            out,
            get-put_same m "input" (array out),
            Yields-eq _ (sanitize_codex_input_items std items) out
                (sanitize_codex_input_items-clean std items) sanitized,
          )))
  input_of-IsCleanInput m _ = tt

  pub normalize_codex_input-IsCleanInput :
      (m : Fields) → Yields IsCleanInput (normalize_codex_input std m)
  unfolding normalize_codex_input
  normalize_codex_input-IsCleanInput m = input_of-IsCleanInput m (at m "input")
