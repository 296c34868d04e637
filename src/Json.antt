-- ===== src/Json.antt =====
-- What encoding/json decodes into an `any`, and the operations of Go's maps on its objects. An
-- object is the list of its entries, each key once; the order of the entries means nothing to the
-- code. A number is the bit pattern of its float64.
use one_llm_router.Prelude.{
  ℕ, String, Bool, true, false, Option, none, some, str_eq, is_some, if◌then◌else◌,
}
pub mod Laws

mutual
  pub data Json : Type 0 where
    null : Json
    bool : Bool → Json
    number : ℕ → Json
    text : String → Json
    array : Items → Json
    object : Fields → Json

  pub data Items : Type 0 where
    nil : Items
    cons : Json → Items → Items

  pub data Fields : Type 0 where
    done : Fields
    entry : String → Json → Fields → Fields

-- value, ok := m[key]
unfoldable pub get : Fields → String → Option Json
get done key = none
get (entry k v rest) key = let found = get rest key in if str_eq k key then some v else found

-- m[key] = value
unfoldable pub put : Fields → String → Json → Fields
put done key value = entry key value done
put (entry k v rest) key value =
    let later = put rest key value in if str_eq k key then entry k value rest else entry k v later

-- delete(m, key)
unfoldable pub delete : Fields → String → Fields
delete done key = done
delete (entry k v rest) key =
    let kept = delete rest key in if str_eq k key then kept else entry k v kept

-- a nil interface where the key is missing, as a JSON null is
abbrev pub or_null : Option Json → Json
or_null none = null
or_null (some v) = v

-- m[key]
abbrev pub at : Fields → String → Json
at m key = or_null (get m key)

-- _, exists := m[key]
abbrev pub has : Fields → String → Bool
has m key = is_some (get m key)

-- len(m) > 0
abbrev pub is_nonempty : Fields → Bool
is_nonempty done = false
is_nonempty (entry k v rest) = true

-- value.(string), value.([]any), value.(map[string]any)
abbrev pub as_text : Json → Option String
as_text (text s) = some s
as_text _ = none

abbrev pub as_items : Json → Option Items
as_items (array xs) = some xs
as_items _ = none

abbrev pub as_object : Json → Option Fields
as_object (object m) = some m
as_object _ = none

-- text, _ := value.(string)
abbrev pub text_or_empty : Json → String
text_or_empty (text s) = s
text_or_empty _ = ""

-- every value of an array passes the test
abbrev pub every : (Json → Bool) → Items → Bool
every p nil = true
every p (cons x xs) = let rest = every p xs in if p x then rest else false

-- every entry of an object passes the test
abbrev pub every_entry : (String → Json → Bool) → Fields → Bool
every_entry p done = true
every_entry p (entry k v m) = let rest = every_entry p m in if p k v then rest else false
