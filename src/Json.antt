-- ===== src/Json.antt =====
-- `serde_json::Value` and the accessors that the code calls.
use lspgraph.Base.{
  ℕ, Bool, true, false, Option, none, some, List, [], ◌∷◌, Text, Text-discrete, ite, ltb, ◌^◌,
  if◌then◌else◌,
}

-- `serde_json::Number`: a `u64`, a negative `i64` (`neg_int n` is -(n + 1)), or a float.
pub data Number : Type 0 where
  pos_int : ℕ → Number
  neg_int : ℕ → Number
  float : Text → Number

mutual
  pub data Value : Type 0 where
    null : Value
    bool : Bool → Value
    num : Number → Value
    str : Text → Value
    arr : Items → Value
    obj : Fields → Value

  pub data Items : Type 0 where
    nil : Items
    cons : Value → Items → Items

  pub data Fields : Type 0 where
    end : Fields
    field : Text → Value → Fields → Fields

unfoldable pub get_field : Text → Fields → Option Value
get_field k end = none
get_field k (field j v fs) = ite (Text-discrete j k) (some v) (get_field k fs)

-- `Value::get` with a key: nothing where the value is no object.
unfoldable pub get : Value → Text → Option Value
unfolding get_field
get (obj fs) k = get_field k fs
get v k = none

abbrev pub is_null : Value → Bool
is_null null = true
is_null v = false

unfoldable pub as_str : Value → Option Text
as_str (str t) = some t
as_str v = none

unfoldable pub as_u64 : Value → Option ℕ
as_u64 (num (pos_int n)) = some n
as_u64 v = none

-- The integers of `as_i64`: a `u64` past `i64::MAX` is none.
pub data Signed : Type 0 where
  pos : ℕ → Signed
  negsuc : ℕ → Signed

unfoldable pub as_i64 : Value → Option Signed
as_i64 (num (pos_int n)) = if ltb n (2 ^ 63) then some (pos n) else none
as_i64 (num (neg_int n)) = some (negsuc n)
as_i64 v = none

unfoldable pub to_list : Items → List Value
to_list nil = []
to_list (cons v vs) = v ∷ to_list vs

unfoldable pub as_array : Value → Option (List Value)
unfolding to_list
as_array (arr vs) = some (to_list vs)
as_array v = none

-- `o.and_then(f)`.
infixl 5 ◌>>=◌
abbrev pub ◌>>=◌ {ℓ κ} : {A : Type ℓ} {B : Type κ} → Option A → (A → Option B) → Option B
none >>= f = none
some a >>= f = f a

-- `o.unwrap_or(d)`.
abbrev pub unwrap_or {ℓ} : {A : Type ℓ} → A → Option A → A
unwrap_or d none = d
unwrap_or d (some a) = a
