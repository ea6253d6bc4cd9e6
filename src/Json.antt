-- ===== src/Json.antt =====
-- What JSONConverter.c of the server and of the device calls of cJSON, as an interface. A node is a
-- value here: the code builds each node once, and adds it to one parent.
pub mod Objects
pub mod Writer
pub mod Reader
pub mod Received
pub mod Fields
pub mod RoundTrip
pub mod Transfer
pub mod Exchange
use Prim.Native.Char.{code}
use esp32_fl.Base.{
  ℕ, ◌+◌, ◌<◌, ◌≡◌, String, Bool, true, false, ◌&&◌, Option, none, some, List, [], ◌∷◌, ◌++◌, ◌==◌,
  leb, if◌then◌else◌, int_mod,
}
use esp32_fl.Float.{FloatArith}

-- The code points of a text.
abbrev pub codes : String → List ℕ
codes String.[] = []
codes (String.◌∷◌ c s) = code c ∷ codes s

-- `cJSON_GetObjectItem` compares names without regard to case.
abbrev pub to_lower : ℕ → ℕ
to_lower c = if leb b'A' c && leb c b'Z' then c + 32 else c

abbrev pub same_codes : List ℕ → List ℕ → Bool
same_codes [] [] = true
same_codes [] (d ∷ ds) = false
same_codes (c ∷ cs) [] = false
same_codes (c ∷ cs) (d ∷ ds) = (to_lower c == to_lower d) && same_codes cs ds

abbrev pub same_name : String → String → Bool
same_name k j = same_codes (codes k) (codes j)

-- `array_items` are the elements that `cJSON_ArrayForEach` runs through.
pub record Cjson (D : Type 0) : Type 1 where
  pub Json : Type 0
  pub create_object : Json
  pub create_array : Json
  pub create_number : D → Json
  pub create_string : String → Json
  pub add_item_to_object : Json → String → Json → Json
  pub add_item_to_array : Json → Json → Json
  pub get_object_item : Json → String → Option Json
  pub array_items : Json → List Json
  pub is_object : Json → Bool
  pub is_array : Json → Bool
  pub is_number : Json → Bool
  pub is_string : Json → Bool
  pub valueint : Json → ℕ
  pub valuedouble : Json → D
  pub valuestring : Json → String

-- The first item whose name is `j`.
abbrev pub or_else : {A : Type 0} → Option A → Option A → Option A
or_else (some a) o = some a
or_else none o = o

-- The documented behaviour of the calls, and of C's conversions: a number below 2^32 passes through
-- a `double` unchanged, and so does a `float`.
pub record IsLawful (fl : FloatArith) (json : Cjson (FloatArith.D fl)) : Type 0 where
  pub get-create : (j : String) → json.get_object_item json.create_object j ≡ none
  pub get-add :
      (o : json.Json) (k : String) (v : json.Json) (j : String)
      → json.get_object_item (json.add_item_to_object o k v) j
        ≡ or_else (json.get_object_item o j) (if same_name k j then some v else none)
  pub items-create : json.array_items json.create_array ≡ []
  pub items-add :
      (a v : json.Json)
      → json.array_items (json.add_item_to_array a v) ≡ json.array_items a ++ (v ∷ [])
  pub is_object-create : json.is_object json.create_object ≡ true
  pub is_object-add :
      (o : json.Json) (k : String) (v : json.Json)
      → json.is_object (json.add_item_to_object o k v) ≡ json.is_object o
  pub is_array-create : json.is_array json.create_array ≡ true
  pub is_array-add :
      (a v : json.Json) → json.is_array (json.add_item_to_array a v) ≡ json.is_array a
  pub is_number-create : (d : fl.D) → json.is_number (json.create_number d) ≡ true
  pub is_string-create : (s : String) → json.is_string (json.create_string s) ≡ true
  pub valuedouble-create : (d : fl.D) → json.valuedouble (json.create_number d) ≡ d
  pub valueint-create :
      (n : ℕ) → n < int_mod → json.valueint (json.create_number (fl.of_int_d n)) ≡ n
  pub valuestring-create : (s : String) → json.valuestring (json.create_string s) ≡ s
  pub narrow-widen : (x : fl.F) → fl.narrow (fl.widen x) ≡ x
