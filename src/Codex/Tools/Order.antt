-- ===== src/Codex/Tools/Order.antt =====
-- internal/provider/openai/codex_request.go: canonicalizeCodexTools puts the tools in an order that
-- does not depend on how they came.
use one_llm_router.Prelude.{
  String, ◌≡◌, refl, sym, ◌∙◌, ap, true, false, some, arith, str_eq, eq_iff, ◌⊎◌, inl, inr,
  Bool-cases,
}
use one_llm_router.Prelude.TextOrder.{text_before_trans, text_before_asymm, text_before_total}
use one_llm_router.Json.{
  Json, Items, Fields, done, entry, null, bool, number, text, array, object, nil, cons, get,
}
use one_llm_router.Json.Laws.{get-put_same}
use one_llm_router.Codex.Tools.{
  sort_codex_json_value, sort_items, sort_fields, codex_tool_sort_key, tool_before, insert_tool,
  slice_stable, canonicalize_codex_tools,
}

-- The copy that sortCodexJSONValue makes is the value itself.
mutual
  unfolding sort_codex_json_value

  copy_eq : (v : Json) → sort_codex_json_value v ≡ v
  copy_eq null = refl
  copy_eq (bool b) = refl
  copy_eq (number n) = refl
  copy_eq (text s) = refl
  copy_eq (array xs) = ap array (copy_items-eq xs)
  copy_eq (object m) = ap object (copy_fields-eq m)

  copy_items-eq : (xs : Items) → sort_items xs ≡ xs
  copy_items-eq nil = refl
  copy_items-eq (cons x xs) =
      ap (λ y. cons y (sort_items xs)) (copy_eq x) ∙ ap (cons x) (copy_items-eq xs)

  copy_fields-eq : (m : Fields) → sort_fields m ≡ m
  copy_fields-eq done = refl
  copy_fields-eq (entry k v m) =
      ap (λ w. entry k w (sort_fields m)) (copy_eq v) ∙ ap (entry k v) (copy_fields-eq m)

pub sort_items-eq : (xs : Items) → sort_items xs ≡ xs
sort_items-eq xs = copy_items-eq xs

abbrev pub key : Json → String
key tool = codex_tool_sort_key tool

before_one :
    (x y : Json)
    → str_eq (codex_tool_sort_key x) (codex_tool_sort_key y) ≡ false
    → (tool_before x y ≡ true) ⊎ (tool_before y x ≡ true)
before_one x y differ = elim (Bool-cases (tool_before x y)) [
  | inl first ↦ inl first
  | inr later ↦ elim (Bool-cases (tool_before y x)) [
    | inl second ↦ inr second
    | inr neither ↦ cc (
      differ,
      (eq_iff (codex_tool_sort_key x) (codex_tool_sort_key y)).1
          (text_before_total (codex_tool_sort_key x) (codex_tool_sort_key y) later neither),
    )
  ]
]

-- Tools of different names are inserted in either order.
insert_before_comm :
    (x y : Json) (l : Items)
    → tool_before x y ≡ true
    → insert_tool x (insert_tool y l) ≡ insert_tool y (insert_tool x l)
unfolding insert_tool
insert_before_comm x y nil p =
    ground (arith, text_before_asymm (codex_tool_sort_key x) (codex_tool_sort_key y))
insert_before_comm x y (cons z l) p = elim (Bool-cases (tool_before z x)) [
  | inl zx ↦
      let zy = text_before_trans (key z) (key x) (key y) zx p in
      rw (zx, zy, zx) (ap (cons z) (insert_before_comm x y l p))
  | inr zx ↦ elim (Bool-cases (tool_before z y)) [
    | inl zy ↦ rw (zx, zy, zx, p) refl
    | inr zy ↦ rw (zx, zy, text_before_asymm (key x) (key y) p, p) refl
  ]
]

pub insert_comm :
    (x y : Json) (l : Items)
    → str_eq (key x) (key y) ≡ false
    → insert_tool x (insert_tool y l) ≡ insert_tool y (insert_tool x l)
insert_comm x y l differ = elim (before_one x y differ) [
  | inl first ↦ insert_before_comm x y l first
  | inr second ↦ sym (insert_before_comm y x l second)
]

-- The same tools in another order, in which those of one name follow one another as before.
pub data Reordered : Items → Items → Type 0 where
  same : (xs : Items) → Reordered xs xs
  behind : (x : Json) (xs ys : Items) → Reordered xs ys → Reordered (cons x xs) (cons x ys)
  swap :
      (x y : Json) (xs : Items)
      → str_eq (key x) (key y) ≡ false
      → Reordered (cons x (cons y xs)) (cons y (cons x xs))
  trans : (xs ys zs : Items) → Reordered xs ys → Reordered ys zs → Reordered xs zs

pub slice_stable-eq : (xs ys : Items) → Reordered xs ys → slice_stable xs ≡ slice_stable ys
unfolding slice_stable
slice_stable-eq xs ys (same l) = refl
slice_stable-eq xs ys (behind x l m h) = ap (insert_tool x) (slice_stable-eq l m h)
slice_stable-eq xs ys (swap x y l differ) = insert_comm x y (slice_stable l) differ
slice_stable-eq xs ys (trans l m n g h) = slice_stable-eq l m g ∙ slice_stable-eq m n h

-- The tools of a payload after its canonicalisation.
pub canonical_tools :
    (m : Fields) (xs : Items)
    → get m "tools" ≡ some (array xs)
    → get (canonicalize_codex_tools m) "tools" ≡ some (array (slice_stable xs))
unfolding canonicalize_codex_tools slice_stable
canonical_tools m nil h = rw h h
canonical_tools m (cons x xs) h =
    rw h (
      get-put_same m "tools" _
      ∙ ap (λ l. some (array (slice_stable l))) (copy_items-eq (cons x xs)))
