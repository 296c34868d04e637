-- ===== src/Core/Redaction/Hidden.antt =====
-- internal/core/redaction.go: what a redacted value does not show.
use one_llm_router.Prelude.{
  ◌≡◌, refl, Bool, true, false, ◌&&◌, str_eq, inl, inr, Bool-cases, if_intro, if◌then◌else◌,
}
use one_llm_router.Prelude.Fold.{equal_fold, lower_contains, lower_equals, lower_has_prefix}
use one_llm_router.Json.{
  Json, Items, Fields, done, entry, null, bool, number, text, array, object, nil, cons,
}
use one_llm_router.Core.Redaction.{
  Patterns, is_secret_like_key, is_image_key, redact_json_value, redact_items, redact_fields,
  redact_image_url, redact_image_fields, is_data_url,
}

abbrev pub is_placeholder : Json → Bool
is_placeholder (text s) = str_eq s "[redacted]"
is_placeholder _ = false

-- The values under keys like those of secrets are the placeholder, at any depth; the keys of an
-- object that stands under image_url itself, or under the url of one, are not looked at.
unfoldable mutual
  pub is_hidden : Json → Bool
  is_hidden (array xs) = are_hidden xs
  is_hidden (object m) = has_hidden m
  is_hidden null = true
  is_hidden (bool b) = true
  is_hidden (number n) = true
  is_hidden (text s) = true

  pub are_hidden : Items → Bool
  are_hidden nil = true
  are_hidden (cons x xs) = is_hidden x && are_hidden xs

  pub has_hidden : Fields → Bool
  has_hidden done = true
  has_hidden (entry key value m) =
      let image = is_hidden_image value in
      let plain = is_hidden value in
      let rest = has_hidden m in
      (if is_secret_like_key key
        then is_placeholder value
        else if is_image_key key
        then image
        else plain)
      && rest

  pub is_hidden_image : Json → Bool
  is_hidden_image (array xs) = are_hidden xs
  is_hidden_image (object m) = image_has_hidden m
  is_hidden_image null = true
  is_hidden_image (bool b) = true
  is_hidden_image (number n) = true
  is_hidden_image (text s) = true

  pub image_has_hidden : Fields → Bool
  image_has_hidden done = true
  image_has_hidden (entry key value m) =
      let image = is_hidden_image value in
      let plain = is_hidden value in
      let rest = image_has_hidden m in (if equal_fold key "url" then image else plain) && rest

mutual
  unfolding is_hidden redact_json_value

  value_hidden : (p : Patterns) (v : Json) → is_hidden (redact_json_value p v) ≡ true
  value_hidden p null = refl
  value_hidden p (bool b) = refl
  value_hidden p (number n) = refl
  value_hidden p (text s) = refl
  value_hidden p (array xs) = items_hidden p xs
  value_hidden p (object m) = fields_hidden p m

  items_hidden : (p : Patterns) (xs : Items) → are_hidden (redact_items p xs) ≡ true
  items_hidden p nil = refl
  items_hidden p (cons x xs) = rw (value_hidden p x, items_hidden p xs) refl

  fields_hidden : (p : Patterns) (m : Fields) → has_hidden (redact_fields p m) ≡ true
  fields_hidden p done = refl
  fields_hidden p (entry key item m) = elim (Bool-cases (is_secret_like_key key)) [
    | inl secret ↦ rw (secret, secret) (fields_hidden p m)
    | inr open_key ↦ elim (Bool-cases (is_image_key key)) [
      | inl image ↦ rw (open_key, image, open_key, image, image_hidden p item) (fields_hidden p m)
      | inr plain ↦ rw (open_key, plain, open_key, plain, value_hidden p item) (fields_hidden p m)
    ]
  ]

  image_hidden : (p : Patterns) (v : Json) → is_hidden_image (redact_image_url p v) ≡ true
  image_hidden p null = refl
  image_hidden p (bool b) = refl
  image_hidden p (number n) = refl
  image_hidden p (text s) =
      if_intro (λ v. is_hidden_image v ≡ true) (is_data_url s) (λ data_url. refl) (λ other. refl)
  image_hidden p (array xs) = items_hidden p xs
  image_hidden p (object m) = image_fields_hidden p m

  image_fields_hidden :
      (p : Patterns) (m : Fields) → image_has_hidden (redact_image_fields p m) ≡ true
  image_fields_hidden p done = refl
  image_fields_hidden p (entry key item m) = elim (Bool-cases (equal_fold key "url")) [
    | inl url ↦ rw (url, url, image_hidden p item) (image_fields_hidden p m)
    | inr other ↦ rw (other, other, value_hidden p item) (image_fields_hidden p m)
  ]

-- Of a redacted value, no value under a key like that of a secret is left, however deep it stands,
-- except directly in an object that is an image or the url of one.
pub redact_json_value-hidden : (p : Patterns) (v : Json) → is_hidden (redact_json_value p v) ≡ true
redact_json_value-hidden p v = value_hidden p v

-- A key like that of a secret that no redaction hides
missed :
    (p : Patterns)
    → redact_json_value p
        (object (entry "image_url" (object (entry "password" (number 7) done)) done))
      ≡ object (entry "image_url" (object (entry "password" (number 7) done)) done)
unfolding redact_json_value is_secret_like_key lower_contains lower_has_prefix lower_equals
    equal_fold
missed p = refl
