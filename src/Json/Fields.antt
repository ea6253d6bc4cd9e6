-- ===== src/Json/Fields.antt =====
-- Single items that are written and read again.
use esp32_fl.Base.{
  ℕ, ◌<◌, ◌≡◌, refl, ap, ap₂, ◌∙◌, String, Bool, true, some, List, [], ◌∷◌, map, length, arith,
  int_mod, ltb,
}
use esp32_fl.Float.{FloatArith}
use esp32_fl.Json.{Cjson, IsLawful, codes}
use esp32_fl.Json.Objects.{
  object_of, array_of, get-object_of, items-array_of, is_array-array_of, find_item,
}
use esp32_fl.Json.Writer.{int_to_json, float_to_json}
use esp32_fl.Json.Reader.{NewMemory, read_int, read_float, read_text, read_array, read_weight}

module _ (fl : FloatArith) (json : Cjson (FloatArith.D fl)) (lawful : IsLawful fl json)
    (reads_type : Bool) (memory : NewMemory (FloatArith.F fl)) where
  open fl use {F}
  open json use {Json, get_object_item}

  pub read_int-to_json :
      (n old : ℕ)
      → n < int_mod
      → read_int fl json reads_type memory (some (int_to_json fl json n)) old ≡ n
  unfolding read_int int_to_json
  read_int-to_json n old h =
      rw (lawful.is_number-create (fl.of_int_d n)) (lawful.valueint-create n h)

  pub read_float-to_json :
      (x old : F) → read_float fl json reads_type memory (some (float_to_json fl json x)) old ≡ x
  unfolding read_float float_to_json
  read_float-to_json x old =
      rw (lawful.is_number-create (fl.widen x), lawful.valuedouble-create (fl.widen x))
        (lawful.narrow-widen x)

  pub read_text-to_json :
      (s old : String)
      → length (codes s) < 20
      → read_text fl json reads_type memory (some (json.create_string s)) old ≡ s
  unfolding read_text
  read_text-to_json s old h =
      let fits : ltb (length (codes s)) 20 ≡ true = ground arith in
      rw (lawful.is_string-create s, lawful.valuestring-create s, fits)

  pub read_array-array_of :
      {A : Type 0} (f : A → Json) (xs : List A)
      → read_array fl json reads_type memory (some (array_of json f xs)) ≡ map f xs
  unfolding read_array
  read_array-array_of f xs =
      rw (is_array-array_of fl json lawful f xs) (items-array_of fl json lawful f xs)

  pub read_weights-to_json :
      (ws : List F)
      → map (read_weight fl json reads_type memory) (map (float_to_json fl json) ws) ≡ ws
  unfolding read_weight float_to_json
  read_weights-to_json [] = refl
  read_weights-to_json (w ∷ ws) =
      ap₂ ◌∷◌ (ap fl.narrow (lawful.valuedouble-create (fl.widen w)) ∙ lawful.narrow-widen w)
        (read_weights-to_json ws)

  pub is_number-int_to_json : (n : ℕ) → json.is_number (int_to_json fl json n) ≡ true
  unfolding int_to_json
  is_number-int_to_json n = lawful.is_number-create (fl.of_int_d n)

  pub valueint-int_to_json : (n : ℕ) → n < int_mod → json.valueint (int_to_json fl json n) ≡ n
  unfolding int_to_json
  valueint-int_to_json n h = lawful.valueint-create n h

  -- Fields of an object, by what was written under their name.
  module _ (items : List (String × Json)) (j : String) where
    pub field_int :
        (n old : ℕ)
        → find_item json j items ≡ some (int_to_json fl json n)
        → n < int_mod
        → read_int fl json reads_type memory (get_object_item (object_of json items) j) old ≡ n
    field_int n old e h = rw (get-object_of fl json lawful items j, e) (read_int-to_json n old h)

    pub field_float :
        (x old : F)
        → find_item json j items ≡ some (float_to_json fl json x)
        → read_float fl json reads_type memory (get_object_item (object_of json items) j) old ≡ x
    field_float x old e = rw (get-object_of fl json lawful items j, e) (read_float-to_json x old)

    pub field_text :
        (s old : String)
        → find_item json j items ≡ some (json.create_string s)
        → length (codes s) < 20
        → read_text fl json reads_type memory (get_object_item (object_of json items) j) old ≡ s
    field_text s old e h = rw (get-object_of fl json lawful items j, e) (read_text-to_json s old h)

    pub field_array :
        {A : Type 0} (f : A → Json) (xs : List A)
        → find_item json j items ≡ some (array_of json f xs)
        → read_array fl json reads_type memory (get_object_item (object_of json items) j) ≡ map f xs
    field_array f xs e = rw (get-object_of fl json lawful items j, e) (read_array-array_of f xs)
