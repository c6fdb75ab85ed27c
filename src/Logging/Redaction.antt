-- ===== src/Logging/Redaction.antt =====
-- common/utils/log-redact.ts: what is taken out of a value before it is logged. `toLowerCase`,
-- `length` and `slice` of texts are arguments.
use Prim.Native.String.{◌++◌ as ◌+++◌}
use mib_server.Prelude.{ℕ, ◌-◌, String, str_eq, Bool, List, [], ◌∷◌, any, if◌then◌else◌, leb}
use mib_server.Prelude.Int.{ℤ}

-- A value as it can be logged: the members of an array and the entries of an object, in order.
mutual
  pub data Value : Type 0 where
    undefined null : Value
    boolean : Bool → Value
    number : ℤ → Value
    text : String → Value
    array : Items → Value
    object : Fields → Value

  pub data Items : Type 0 where
    nil : Items
    cons : Value → Items → Items

  pub data Fields : Type 0 where
    end : Fields
    field : String → Value → Fields → Fields

-- `SENSITIVE_KEYS`
abbrev pub sensitive_keys : List String
sensitive_keys =
    "password" ∷ "passwordhash" ∷ "token" ∷ "authorization" ∷ "refreshtoken" ∷ "accesstoken"
    ∷ "secret" ∷ "qrToken" ∷ []

-- `PII_KEYS`
abbrev pub pii_keys : List String
pii_keys = "phone" ∷ "emergencyphone" ∷ []

-- The runtime's functions on texts: `slice s from to`.
pub record SliceRuntime : Type 0 where
  pub to_lower : String → String
  pub length : String → ℕ
  pub slice : String → ℕ → ℕ → String

module _ (js : SliceRuntime) where
  -- The tests on a key, in lower case.
  unfoldable pub is_sensitive : String → Bool
  is_sensitive key = any (str_eq (js.to_lower key)) sensitive_keys

  unfoldable pub is_pii : String → Bool
  is_pii key = any (str_eq (js.to_lower key)) pii_keys

  -- `maskPhone`
  unfoldable pub mask_phone : String → String
  mask_phone value =
      if leb (js.length value) 4
      then "****"
      else js.slice value 0 3 +++ "****" +++ js.slice value (js.length value - 4) (js.length value)

  -- A text under a key with personal data is masked.
  abbrev pub masked : Bool → String → Value
  masked pii s = if pii then Value.text (mask_phone s) else Value.text s

  -- `redactForLog`, with the members of an array, the value under a key, and the entries
  unfoldable mutual
    unfolding mask_phone is_sensitive is_pii

    pub redact_for_log : Value → Value
    redact_for_log (Value.array items) = Value.array (redact_items items)
    redact_for_log (Value.object fields) = Value.object (redact_fields fields)
    redact_for_log v = v

    pub redact_items : Items → Items
    redact_items Items.nil = Items.nil
    redact_items (Items.cons v items) = Items.cons (redact_for_log v) (redact_items items)

    pub redact_under : Bool → Value → Value
    redact_under pii (Value.text s) = masked pii s
    redact_under pii (Value.array items) = Value.array (redact_items items)
    redact_under pii (Value.object fields) = Value.object (redact_fields fields)
    redact_under pii v = v

    pub redact_fields : Fields → Fields
    redact_fields Fields.end = Fields.end
    redact_fields (Fields.field key v fields) =
        let rest = redact_fields fields in
        let kept = redact_under (is_pii key) v in
        if is_sensitive key then rest else Fields.field key kept rest
