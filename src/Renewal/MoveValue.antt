-- ===== src/Renewal/MoveValue.antt =====
-- keeper/src/scanner.ts: the Move objects of the chain as JSON, the coercions of their values, and
-- `parseVaultObject`. A text is its list of character codes. Numbers of the chain are unsigned: of a
-- text with a minus sign, which none of them is, the model makes 0.
use walwatch.Prelude.{
  ℕ, zero, suc, ◌+◌, ◌/◌, ◌%◌, ltb, ◌==◌, codes, same_text, Bool, true, false, not, List, [], ◌∷◌,
  ◌++◌, Option, none, some, if◌then◌else◌,
}
use walwatch.Pagination.Limits.{Parsed, nan, number, negative, parse_int}
use walwatch.Renewal.{DueVault}
use walwatch.Renewal.Events.{number as decimal_value}

mutual
  pub data Json : Type 0 where
    null : Json
    boolean : Bool → Json
    numeric : ℕ → Json
    text : List ℕ → Json
    array : JsonList → Json
    object : JsonFields → Json

  pub data JsonList : Type 0 where
    empty : JsonList
    item : Json → JsonList → JsonList

  pub data JsonFields : Type 0 where
    no_fields : JsonFields
    field : List ℕ → Json → JsonFields → JsonFields

abbrev lookup : List ℕ → JsonFields → Option Json
lookup name no_fields = none
lookup name (field n v fs) = let rest = lookup name fs in if same_text n name then some v else rest

-- `value.name`, of a value that is not null, and `value?.name`.
abbrev get_field : List ℕ → Json → Option Json
get_field name (object fs) = lookup name fs
get_field name _ = none

abbrev get_field? : List ℕ → Option Json → Option Json
get_field? name none = none
get_field? name (some v) = get_field name v

abbrev is_truthy : Json → Bool
is_truthy null = false
is_truthy (boolean b) = b
is_truthy (numeric n) = not (n == 0)
is_truthy (text []) = false
is_truthy (text (c ∷ s)) = true
is_truthy (array vs) = true
is_truthy (object fs) = true

-- A value that a test of JavaScript takes for true.
abbrev if_truthy : Option Json → Option Json
if_truthy none = none
if_truthy (some v) = if is_truthy v then some v else none

-- The digits of a number, before those that follow; the fuel is at least their number.
abbrev decimal_from : ℕ → ℕ → List ℕ → List ℕ
decimal_from zero n after = after
decimal_from (suc fuel) n after =
    let rest = decimal_from fuel (n / 10) ((48 + n % 10) ∷ after) in
    if ltb n 10 then (48 + n) ∷ after else rest

-- `String(n)`.
abbrev pub decimal : ℕ → List ℕ
decimal n = decimal_from (suc n) n []

abbrev boolean_string : Bool → List ℕ
boolean_string true = codes "true"
boolean_string false = codes "false"

-- `String(value)`; a list is its elements, of which null is empty, with commas.
unfoldable mutual
  pub js_string : Json → List ℕ
  js_string null = codes "null"
  js_string (boolean b) = boolean_string b
  js_string (numeric n) = decimal n
  js_string (text s) = s
  js_string (array vs) = join vs
  js_string (object fs) = codes "[object Object]"

  pub item_string : Json → List ℕ
  item_string null = []
  item_string (boolean b) = boolean_string b
  item_string (numeric n) = decimal n
  item_string (text s) = s
  item_string (array vs) = join vs
  item_string (object fs) = codes "[object Object]"

  pub join : JsonList → List ℕ
  join empty = []
  join (item v empty) = item_string v
  join (item v (item w vs)) = item_string v ++ (44 ∷ join (item w vs))

-- `fields.bits` of an object, if it is a text or a number; then its `id`, if that is a text.
abbrev bits_string : Option Json → Option (List ℕ)
bits_string (some (text s)) = some s
bits_string (some (numeric n)) = some (decimal n)
bits_string _ = none

abbrev id_string : Json → Option Json → List ℕ
id_string v (some (text s)) = s
id_string v _ = js_string v

abbrev object_string : Json → List ℕ
object_string v = elim (bits_string (get_field? (codes "bits") (get_field (codes "fields") v))) [
  | some s ↦ s
  | none ↦ id_string v (get_field (codes "id") v)
]

-- `asString`.
unfoldable pub as_string : Option Json → List ℕ
as_string none = []
as_string (some null) = []
as_string (some (text s)) = s
as_string (some (numeric n)) = decimal n
as_string (some (boolean b)) = boolean_string b
as_string (some (array vs)) = object_string (array vs)
as_string (some (object fs)) = object_string (object fs)

abbrev or_nought : Parsed → ℕ
or_nought nan = 0
or_nought (number n) = n
or_nought (negative n) = 0

-- `asNumber`.
unfoldable pub as_number : Option Json → ℕ
as_number v = or_nought (parse_int (as_string v))

-- `asBigInt`.
unfoldable pub as_big_int : Option Json → ℕ
as_big_int v = elim (decimal_value (as_string v)) [ none ↦ 0 | some n ↦ n ]

-- `asBoolean`.
unfoldable pub as_boolean : Option Json → Bool
as_boolean (some (boolean b)) = b
as_boolean (some (text s)) = same_text s (codes "true")
as_boolean _ = false

abbrev inner_number : Json → ℕ
inner_number inner = elim (get_field? (codes "bits") (get_field (codes "fields") inner)) [
  | some bits ↦ as_number (some bits)
  | none ↦ as_number (some inner)
]

abbrev of_option_vec : Json → Option Json → Option ℕ
of_option_vec v (some (array empty)) = none
of_option_vec v (some (array (item inner vs))) =
    if is_truthy inner then some (inner_number inner) else none
of_option_vec v _ = some (as_number (some v))

-- `parseOptionU64`.
unfoldable pub parse_option_u64 : Option Json → Option ℕ
parse_option_u64 none = none
parse_option_u64 (some null) = none
parse_option_u64 (some (text s)) = some (as_number (some (text s)))
parse_option_u64 (some (numeric n)) = some (as_number (some (numeric n)))
parse_option_u64 (some v) = of_option_vec v (get_field (codes "vec") v)

-- `SuiObjectResponse`: the content of an object says if it is a Move object.
pub record ObjectContent : Type 0 where
  pub is_move_object : Bool
  pub fields : Option Json

pub record ObjectData : Type 0 where
  pub object_id : List ℕ
  pub content : Option ObjectContent

-- The fields of the blob, which is the first element of `blob.vec`.
abbrev blob_fields : Option Json → Option Json
blob_fields (some (array (item first vs))) = if_truthy (get_field (codes "fields") first)
blob_fields _ = none

abbrev vault_of : List ℕ → Json → DueVault
vault_of id fields =
    let blob = blob_fields (get_field? (codes "vec") (get_field (codes "blob") fields)) in
    let storage =
      if_truthy (get_field? (codes "fields") (if_truthy (get_field? (codes "storage") blob))) in
    let policy = if_truthy (get_field? (codes "fields") (get_field (codes "policy") fields)) in
    record {
      id = id;
      beneficiary = as_string (get_field (codes "beneficiary") fields);
      blob_id = as_string (get_field? (codes "blob_id") blob);
      wal_balance = as_big_int (get_field (codes "wal_balance") fields);
      renew_threshold_epochs = as_number (get_field? (codes "renew_threshold_epochs") policy);
      renew_by_epochs = as_number (get_field? (codes "renew_by_epochs") policy);
      max_total_epochs = parse_option_u64 (get_field? (codes "max_total_epochs") policy);
      active = as_boolean (get_field? (codes "active") policy);
      current_end_epoch = as_number (get_field? (codes "end_epoch") storage);
    }

abbrev of_content : List ℕ → Option ObjectContent → Option DueVault
of_content id none = none
of_content id (some content) =
    if content.is_move_object
    then elim (if_truthy content.fields) [ none ↦ none | some fields ↦ some (vault_of id fields) ]
    else none

-- `parseVaultObject`.
unfoldable pub parse_vault_object : Option ObjectData → Option DueVault
parse_vault_object none = none
parse_vault_object (some data_of) = of_content data_of.object_id data_of.content
