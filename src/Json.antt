-- ===== src/Json.antt =====
-- The cJSON calls of cJSON/json_wrap.c and cJSON/manipulate_list.c, as an interface. A value is
-- the tree below a `cJSON *`; NULL is `none`. The library itself is not modelled.
pub mod Text
pub mod Wrap
pub mod Lists
pub mod Links
pub mod Commands
pub mod Names
pub mod Project
pub mod Simplify
pub mod Titles
pub mod Members
pub mod Categories
pub mod Unquote
mod Sample
mod Tests
use clpsz_demos.Base.{ℕ, suc, ◌<◌, ◌≡◌, Option, none, some, List, Bytes, Bool, false}
use clpsz_demos.Json.Names.{same_name}

pub record CJson : Type 1 where
  pub Value : Type 0
  -- cJSON_Parse of a block of memory.
  pub parse : Bytes → Option Value
  -- cJSON_Print and cJSON_PrintUnformatted: the text before the terminator.
  pub print : Value → Option Bytes
  pub print_unformatted : Value → Option Bytes
  -- `type == cJSON_String`
  pub is_string : Value → Bool
  pub size : Value → ℕ
  pub array_item : Value → ℕ → Option Value
  pub object_item : Value → Bytes → Option Value
  pub create_array : Option Value
  pub create_object : Option Value
  pub duplicate : Value → Option Value
  pub add_to_array : Value → Value → Value
  pub add_to_object : Value → Bytes → Value → Value

-- What cJSON documents of these calls.
pub record Laws (J : CJson) : Type 0 where
  pub size-create_array : (a : J.Value) → J.create_array ≡ some a → J.size a ≡ 0
  pub object_item-create_object :
      (o : J.Value) (k : Bytes) → J.create_object ≡ some o → J.object_item o k ≡ none
  pub array_item-below :
      (a : J.Value) (i : ℕ) → i < J.size a → (v : J.Value) × (J.array_item a i ≡ some v)
  pub size-add_to_array : (a v : J.Value) → J.size (J.add_to_array a v) ≡ suc (J.size a)
  pub array_item-last : (a v : J.Value) → J.array_item (J.add_to_array a v) (J.size a) ≡ some v
  pub array_item-other :
      (a v : J.Value) (i : ℕ)
      → i < J.size a
      → J.array_item (J.add_to_array a v) i ≡ J.array_item a i
  pub object_item-new :
      (o v : J.Value) (k : Bytes)
      → J.object_item o k ≡ none
      → J.object_item (J.add_to_object o k v) k ≡ some v
  -- The first member of a name is the one that is found.
  pub object_item-first :
      (o v w : J.Value) (k : Bytes)
      → J.object_item o k ≡ some w
      → J.object_item (J.add_to_object o k v) k ≡ some w
  pub object_item-other :
      (o v : J.Value) (k l : Bytes)
      → same_name k l ≡ false
      → J.object_item (J.add_to_object o k v) l ≡ J.object_item o l
  pub duplicate-same : (v w : J.Value) → J.duplicate v ≡ some w → w ≡ v
