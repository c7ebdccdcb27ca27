-- ===== src/Json/Stored.antt =====
-- How src/lib/core/json.c stores an object: the list of its keys, and the dictionary of their values.
-- Both pointers are null until the first property is set. Of PSC_Dictionary the code uses four
-- operations on values that are not null.
use poser.Prelude.{ℕ, zero, suc, ◌≡◌, List, [], ◌∷◌, ◌++◌, Option, none, some, if◌then◌else◌}
use poser.Prelude.Chars.{str_eq}
use poser.Json.{Json, string, with_length}

-- PSC_Dictionary, from keys to values
pub record Values (F D : Type 0) : Type 0 where
  pub create : D
  pub get : D → List ℕ → Option (Json F)
  pub set : D → List ℕ → Json F → D
  pub count : D → ℕ

-- one more, unless there is a value already
abbrev pub one_more : {F : Type 0} → Option (Json F) → ℕ → ℕ
one_more none n = suc n
one_more (some old) n = n

-- What src/include/poser/core/dictionary.h documents of them.
pub record Laws {F D : Type 0} (dict : Values F D) : Type 0 where
  pub get-create : (q : List ℕ) → dict.get dict.create q ≡ none
  pub count-create : dict.count dict.create ≡ 0
  pub get-set :
      (d : D) (k : List ℕ) (v : Json F) (q : List ℕ)
      → dict.get (dict.set d k v) q ≡ (if str_eq k q then some v else dict.get d q)
  pub count-set :
      (d : D) (k : List ℕ) (v : Json F)
      → dict.count (dict.set d k v) ≡ one_more (dict.get d k) (dict.count d)

-- JsonObject
pub record JsonObject (D : Type 0) : Type 0 where
  pub keys : Option (List (List ℕ))
  pub values : Option D

-- `PSC_Json_createObject`
abbrev pub create_object : {D : Type 0} → JsonObject D
create_object = record { keys = none; values = none }

-- the list of keys, created if there is none
abbrev pub key_list : Option (List (List ℕ)) → List (List ℕ)
key_list none = []
key_list (some keys) = keys

module _ {F D : Type 0} (dict : Values F D) where
  -- the dictionary, created if there is none
  abbrev pub dictionary : Option D → D
  dictionary none = dict.create
  dictionary (some values) = values

  -- the key behind the others, if the dictionary has no value for it
  unfoldable pub add_key :
      Option (Json F) → Option (List (List ℕ)) → List ℕ → Option (List (List ℕ))
  add_key none keys key = some (key_list keys ++ key ∷ [])
  add_key (some old) keys key = keys

  -- `PSC_Json_setProperty` on an object
  unfoldable pub store_property : JsonObject D → List ℕ → ℕ → Json F → JsonObject D
  store_property obj name namelen value =
      let key = with_length name namelen in
      let values = dictionary obj.values in
      record {
        keys = add_key (dict.get values key) obj.keys key;
        values = some (dict.set values key value);
      }

  -- what a null pointer or a dictionary has for a key, and how many
  abbrev pub value_in : Option D → List ℕ → Option (Json F)
  value_in none key = none
  value_in (some values) key = dict.get values key

  abbrev pub count_in : Option D → ℕ
  count_in none = 0
  count_in (some values) = dict.count values

  -- `PSC_Json_property` on an object
  unfoldable pub find_property : JsonObject D → List ℕ → ℕ → Option (Json F)
  find_property obj name namelen = value_in obj.values (with_length name namelen)

  -- `PSC_Json_length` on an object
  unfoldable pub object_length : JsonObject D → ℕ
  object_length obj = count_in obj.values

-- `PSC_List_at` on the keys, which are strings
abbrev pub key_item : {F : Type 0} → List (List ℕ) → ℕ → Option (Json F)
key_item [] i = none
key_item (key ∷ keys) zero = some (string key)
key_item (key ∷ keys) (suc i) = key_item keys i

abbrev pub item_in : {F : Type 0} → Option (List (List ℕ)) → ℕ → Option (Json F)
item_in none i = none
item_in (some keys) i = key_item keys i

-- `PSC_Json_itemAt` on an object
unfoldable pub object_item : {F D : Type 0} → JsonObject D → ℕ → Option (Json F)
object_item obj i = item_in obj.keys i
