-- ===== src/Json/Laws.antt =====
-- The laws of reading and writing a key of an object.
use one_llm_router.Prelude.{
  String, ◌≡◌, refl, ap, subst, ◌∙◌, Bool, true, false, none, some, arith, eq_iff, str_eq,
  Bool-cases, inl, inr,
}
use one_llm_router.Json.{Json, Fields, done, entry, get, put, delete, every_entry}

str_eq_self : (k : String) → str_eq k k ≡ true
str_eq_self k = ground (arith, eq_iff k k)

pub get-put_same : (m : Fields) (k : String) (v : Json) → get (put m k v) k ≡ some v
unfolding get put
get-put_same done k v = rw (str_eq_self k) refl
get-put_same (entry j w rest) k v = elim (Bool-cases (str_eq j k)) [
  | inl same ↦ rw (same, same) refl
  | inr other ↦ rw (other, other) (get-put_same rest k v)
]

pub get-put_other :
    (m : Fields) (k : String) (v : Json) (j : String)
    → str_eq k j ≡ false
    → get (put m k v) j ≡ get m j
unfolding get put
get-put_other done k v j e = rw e refl
get-put_other (entry i w rest) k v j e =
    ground (arith, eq_iff i k, eq_iff i j, eq_iff k j, get-put_other rest k v j e)

pub get-delete_same : (m : Fields) (k : String) → get (delete m k) k ≡ none
unfolding get delete
get-delete_same done k = refl
get-delete_same (entry j w rest) k = ground (arith, get-delete_same rest k)

pub get-delete_other :
    (m : Fields) (k j : String) → str_eq k j ≡ false → get (delete m k) j ≡ get m j
unfolding get delete
get-delete_other done k j e = refl
get-delete_other (entry i w rest) k j e =
    ground (arith, eq_iff i k, eq_iff i j, eq_iff k j, get-delete_other rest k j e)

-- A key that is missing stays so when any key is deleted.
pub delete-absent : (m : Fields) (k j : String) → get m j ≡ none → get (delete m k) j ≡ none
delete-absent m k j h = elim (Bool-cases (str_eq k j)) [
  | inl same ↦ subst (λ i. get (delete m k) i ≡ none) ((eq_iff k j).0 same) (get-delete_same m k)
  | inr other ↦ get-delete_other m k j other ∙ h
]

pub put-put_same : (m : Fields) (k : String) (v : Json) → put (put m k v) k v ≡ put m k v
unfolding put
put-put_same done k v = rw (str_eq_self k) refl
put-put_same (entry j w rest) k v = elim (Bool-cases (str_eq j k)) [
  | inl same ↦ rw (same, same) refl
  | inr other ↦ rw (other, other) (ap (entry j w) (put-put_same rest k v))
]

module _ (p : String → Json → Bool) where
  pub every_entry-put :
      (m : Fields) (k : String) (v : Json)
      → every_entry p m ≡ true
      → p k v ≡ true
      → every_entry p (put m k v) ≡ true
  unfolding put
  every_entry-put done k v h good = rw good refl
  every_entry-put (entry j w rest) k v h good = ground (arith, eq_iff j k, every_entry-put rest k v)

  pub every_entry-get :
      (m : Fields) (k : String) (v : Json)
      → every_entry p m ≡ true
      → get m k ≡ some v
      → p k v ≡ true
  unfolding get
  every_entry-get done k v h found = cc
  every_entry-get (entry j w rest) k v h found =
      ground (arith, eq_iff j k, every_entry-get rest k v)
