-- ===== src/Logging/Redacted.antt =====
-- What redaction guarantees: common/utils/log-redact.ts.
use mib_server.Prelude.{
  and-eq-true, ◌≡◌, refl, ap, String, Bool, true, false, not, ◌&&◌, arith, Bool-cases, inl, inr,
}
use mib_server.Logging.Redaction.{
  redact_fields, redact_under, redact_items, SliceRuntime, Value, Items, Fields, is_sensitive,
  is_pii, mask_phone, redact_for_log,
}

module _ (js : SliceRuntime) where
  -- No key, at any depth, is a sensitive one.
  unfoldable mutual
    pub is_clean : Value → Bool
    is_clean (Value.array items) = are_clean items
    is_clean (Value.object fields) = has_clean fields
    is_clean v = true

    pub are_clean : Items → Bool
    are_clean Items.nil = true
    are_clean (Items.cons v items) = is_clean v && are_clean items

    pub has_clean : Fields → Bool
    has_clean Fields.end = true
    has_clean (Fields.field key v fields) =
        not (is_sensitive js key) && is_clean v && has_clean fields

  mutual
    unfolding redact_for_log is_clean

    clean_value : (v : Value) → is_clean (redact_for_log js v) ≡ true
    clean_value (Value.array items) = clean_items items
    clean_value (Value.object fields) = clean_fields fields
    clean_value Value.undefined = refl
    clean_value Value.null = refl
    clean_value (Value.boolean b) = refl
    clean_value (Value.number n) = refl
    clean_value (Value.text s) = refl

    clean_items : (items : Items) → are_clean (redact_items js items) ≡ true
    clean_items Items.nil = refl
    clean_items (Items.cons v items) = rw (clean_value v) (clean_items items)

    clean_under : (pii : Bool) (v : Value) → is_clean (redact_under js pii v) ≡ true
    clean_under pii (Value.array items) = clean_items items
    clean_under pii (Value.object fields) = clean_fields fields
    clean_under pii Value.undefined = refl
    clean_under pii Value.null = refl
    clean_under pii (Value.boolean b) = refl
    clean_under pii (Value.number n) = refl
    clean_under true (Value.text s) = refl
    clean_under false (Value.text s) = refl

    clean_fields : (fields : Fields) → has_clean (redact_fields js fields) ≡ true
    clean_fields Fields.end = refl
    clean_fields (Fields.field key v fields) = elim (Bool-cases (is_sensitive js key)) [
      | inl e ↦ rw e (clean_fields fields)
      | inr e ↦ rw (e, e) (rw (clean_under (is_pii js key) v) (clean_fields fields))
    ]

  -- A text under a key with personal data is some text's mask.
  abbrev pub IsMaskedUnder : Bool → Value → Type 0
  IsMaskedUnder true (Value.text s) = (original : String) × (s ≡ mask_phone js original)
  IsMaskedUnder _ _ = Unit

  -- So it is at any depth.
  unfoldable mutual
    pub IsMasked : Value → Type 0
    IsMasked (Value.array items) = AreMasked items
    IsMasked (Value.object fields) = HasMasked fields
    IsMasked v = Unit

    pub AreMasked : Items → Type 0
    AreMasked Items.nil = Unit
    AreMasked (Items.cons v items) = IsMasked v × AreMasked items

    pub HasMasked : Fields → Type 0
    HasMasked Fields.end = Unit
    HasMasked (Fields.field key v fields) =
        IsMaskedUnder (is_pii js key) v × IsMasked v × HasMasked fields

  hidden_under : (pii : Bool) (v : Value) → IsMaskedUnder pii (redact_under js pii v)
  unfolding redact_for_log
  hidden_under true (Value.text s) = (s, refl)
  hidden_under false (Value.text s) = tt
  hidden_under true (Value.array items) = tt
  hidden_under false (Value.array items) = tt
  hidden_under true (Value.object fields) = tt
  hidden_under false (Value.object fields) = tt
  hidden_under true Value.undefined = tt
  hidden_under false Value.undefined = tt
  hidden_under true Value.null = tt
  hidden_under false Value.null = tt
  hidden_under true (Value.boolean b) = tt
  hidden_under false (Value.boolean b) = tt
  hidden_under true (Value.number n) = tt
  hidden_under false (Value.number n) = tt

  mutual
    unfolding redact_for_log IsMasked

    hidden_value : (v : Value) → IsMasked (redact_for_log js v)
    hidden_value (Value.array items) = hidden_items items
    hidden_value (Value.object fields) = hidden_fields fields
    hidden_value Value.undefined = tt
    hidden_value Value.null = tt
    hidden_value (Value.boolean b) = tt
    hidden_value (Value.number n) = tt
    hidden_value (Value.text s) = tt

    hidden_items : (items : Items) → AreMasked (redact_items js items)
    hidden_items Items.nil = tt
    hidden_items (Items.cons v items) = (hidden_value v, hidden_items items)

    hidden_inside : (pii : Bool) (v : Value) → IsMasked (redact_under js pii v)
    hidden_inside pii (Value.array items) = hidden_items items
    hidden_inside pii (Value.object fields) = hidden_fields fields
    hidden_inside pii Value.undefined = tt
    hidden_inside pii Value.null = tt
    hidden_inside pii (Value.boolean b) = tt
    hidden_inside pii (Value.number n) = tt
    hidden_inside true (Value.text s) = tt
    hidden_inside false (Value.text s) = tt

    hidden_fields : (fields : Fields) → HasMasked (redact_fields js fields)
    hidden_fields Fields.end = tt
    hidden_fields (Fields.field key v fields) = elim (Bool-cases (is_sensitive js key)) [
      | inl e ↦ rw e (hidden_fields fields)
      | inr e ↦
          rw e
            (hidden_under (is_pii js key) v, hidden_inside (is_pii js key) v, hidden_fields fields)
    ]

  -- In a redacted value no object, at any depth, has a key whose lower-case form is in the code's list
  -- of sensitive keys, and each text under a key whose lower-case form is in its list of personal
  -- data is a mask. A key qrToken is not in the list in lower case, and is kept.
  pub redact_for_log-IsMasked :
      (v : Value) → (is_clean (redact_for_log js v) ≡ true) × IsMasked (redact_for_log js v)
  redact_for_log-IsMasked v = (clean_value v, hidden_value v)

  abbrev is_text : Value → Bool
  is_text (Value.text s) = true
  is_text v = false

  -- Nothing to redact: no sensitive key, and no text under a key with personal data.
  unfoldable mutual
    pub is_harmless : Value → Bool
    is_harmless (Value.array items) = are_harmless items
    is_harmless (Value.object fields) = has_harmless fields
    is_harmless v = true

    pub are_harmless : Items → Bool
    are_harmless Items.nil = true
    are_harmless (Items.cons v items) = is_harmless v && are_harmless items

    pub has_harmless : Fields → Bool
    has_harmless Fields.end = true
    has_harmless (Fields.field key v fields) =
        not (is_sensitive js key)
        && not (is_pii js key && is_text v)
        && is_harmless v
        && has_harmless fields

  mutual
    unfolding redact_for_log is_harmless

    same_value : (v : Value) → is_harmless v ≡ true → redact_for_log js v ≡ v
    same_value (Value.array items) h = ap Value.array (same_items items h)
    same_value (Value.object fields) h = ap Value.object (same_fields fields h)
    same_value Value.undefined h = refl
    same_value Value.null h = refl
    same_value (Value.boolean b) h = refl
    same_value (Value.number n) h = refl
    same_value (Value.text s) h = refl

    same_items : (items : Items) → are_harmless items ≡ true → redact_items js items ≡ items
    same_items Items.nil h = refl
    same_items (Items.cons v items) h =
        let (here, rest) = and-eq-true (is_harmless v) (are_harmless items) h in
        rw (same_value v here) (rw (same_items items rest) refl)

    same_under :
        (pii : Bool) (v : Value)
        → (pii && is_text v) ≡ false
        → is_harmless v ≡ true
        → redact_under js pii v ≡ v
    same_under pii (Value.array items) e h = ap Value.array (same_items items h)
    same_under pii (Value.object fields) e h = ap Value.object (same_fields fields h)
    same_under pii Value.undefined e h = refl
    same_under pii Value.null e h = refl
    same_under pii (Value.boolean b) e h = refl
    same_under pii (Value.number n) e h = refl
    same_under true (Value.text s) e h = absurd (cc e)
    same_under false (Value.text s) e h = refl

    same_fields : (fields : Fields) → has_harmless fields ≡ true → redact_fields js fields ≡ fields
    same_fields Fields.end h = refl
    same_fields (Fields.field key v fields) h =
        let kept : is_sensitive js key ≡ false = ground arith in
        let plain : (is_pii js key && is_text v) ≡ false = ground arith in
        let inside : is_harmless v ≡ true = ground arith in
        let others : has_harmless fields ≡ true = ground arith in
        rw kept
          (rw (same_under (is_pii js key) v plain inside) (rw (same_fields fields others) refl))

  -- A value with nothing to redact is logged as it is.
  pub redact_for_log-same : (v : Value) → is_harmless v ≡ true → redact_for_log js v ≡ v
  redact_for_log-same v h = same_value v h
