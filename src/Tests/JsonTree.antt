-- ===== src/Tests/JsonTree.antt =====
-- An implementation of the interface of cJSON by trees, over the arithmetic of the tests.
use esp32_fl.Base.{
  ℕ, refl, String, Bool, true, false, Option, none, some, List, [], ◌∷◌, ◌++◌, if◌then◌else◌,
}
use esp32_fl.Json.{Cjson, IsLawful, same_name, or_else}
use esp32_fl.Tests.Samples.{natural_arith}

pub data Tree : Type 0 where
  number : ℕ → Tree
  text : String → Tree
  empty_object : Tree
  with_item : Tree → String → Tree → Tree
  empty_array : Tree
  with_element : Tree → Tree → Tree

abbrev pub get_item : Tree → String → Option Tree
get_item (number n) j = none
get_item (text s) j = none
get_item empty_object j = none
get_item (with_item o k v) j = or_else (get_item o j) (if same_name k j then some v else none)
get_item empty_array j = none
get_item (with_element a v) j = none

abbrev pub elements : Tree → List Tree
elements (number n) = []
elements (text s) = []
elements empty_object = []
elements (with_item o k v) = []
elements empty_array = []
elements (with_element a v) = elements a ++ (v ∷ [])

abbrev pub object : Tree → Bool
object (number n) = false
object (text s) = false
object empty_object = true
object (with_item o k v) = object o
object empty_array = false
object (with_element a v) = false

abbrev pub array : Tree → Bool
array (number n) = false
array (text s) = false
array empty_object = false
array (with_item o k v) = false
array empty_array = true
array (with_element a v) = array a

abbrev pub tree_json : Cjson ℕ
tree_json = record {
  Json = Tree;
  create_object = empty_object;
  create_array = empty_array;
  create_number = number;
  create_string = text;
  add_item_to_object = with_item;
  add_item_to_array = with_element;
  get_object_item = get_item;
  array_items = elements;
  is_object = object;
  is_array = array;
  is_number = λ t. elim t [ number n ↦ true | _ ↦ false ];
  is_string = λ t. elim t [ text s ↦ true | _ ↦ false ];
  valueint = λ t. elim t [ number n ↦ n | _ ↦ 0 ];
  valuedouble = λ t. elim t [ number n ↦ n | _ ↦ 0 ];
  valuestring = λ t. elim t [ text s ↦ s | _ ↦ "" ];
}

pub tree_json-IsLawful : IsLawful natural_arith tree_json
tree_json-IsLawful = record {
  get-create = λ j. refl;
  get-add = λ o k v j. refl;
  items-create = refl;
  items-add = λ a v. refl;
  is_object-create = refl;
  is_object-add = λ o k v. refl;
  is_array-create = refl;
  is_array-add = λ a v. refl;
  is_number-create = λ d. refl;
  is_string-create = λ s. refl;
  valuedouble-create = λ d. refl;
  valueint-create = λ n h. refl;
  valuestring-create = λ s. refl;
  narrow-widen = λ x. refl;
}
