-- ===== src/Model/Json.antt =====
-- `serde_json::Value`, the public enumeration of the library that the program's types hold.
-- A finite float stands for itself by its 64 bits. The program's own code on values comes with the
-- parts that read them.
use trilithon.Base.{ℕ, String, Bool}

pub data Number : Type 0 where
  unsigned : ℕ → Number  -- a `u64`
  negative : ℕ → Number  -- an `i64` below 0, by its absolute value
  float : ℕ → Number

mutual
  pub data Value : Type 0 where
    null : Value
    bool : Bool → Value
    number : Number → Value
    string : String → Value
    array : Items → Value
    object : Fields → Value

  -- `Vec<Value>`
  pub data Items : Type 0 where
    nil : Items
    cons : Value → Items → Items

  -- `Map<String, Value>`, in the order of the keys
  pub data Fields : Type 0 where
    end : Fields
    field : String → Value → Fields → Fields
