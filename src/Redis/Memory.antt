-- ===== src/Redis/Memory.antt =====
-- A server that keeps its keys in a function: it meets the laws of `Server`, so what is proved from
-- them is about something that can exist. Its counters count in unary.
use Prim.Native.String.{◌++◌ as ◌+++◌, len, ◌∷◌, []}
use mib_server.Prelude.{
  ℕ, ◌+◌, ◌-◌, ◌≡◌, refl, String, str_eq, true, false, inl, inr, Option, none, some, arith,
  Bool-cases, if◌then◌else◌, ltb, leb, zero, suc, ◌==◌,
}
use Prim.Native.Char.{code}
use mib_server.Redis.Store.{Server}
use mib_server.Redis.Idempotency.{Json, StoredRecord, processing, completed}

-- A value and when it expires, if it does.
abbrev pub Entry : Type 0
Entry = String × Option ℕ

abbrev pub Keys : Type 0
Keys = String → Option Entry

abbrev pub live : ℕ → Option Entry → Option String
live now none = none
live now (some (v, none)) = some v
live now (some (v, some e)) = if ltb now e then some v else none

abbrev pub seconds_left : ℕ → Option Entry → Option ℕ
seconds_left now none = none
seconds_left now (some (v, none)) = none
seconds_left now (some (v, some e)) = if ltb now e then some (e - now) else none

abbrev pub with_expiry : ℕ → Option String → Option Entry
with_expiry e none = none
with_expiry e (some v) = some (v, some e)

abbrev pub at_key : String → Option Entry → Keys → Keys
at_key k entry r j = if str_eq k j then entry else r j

abbrev pub expire_key : ℕ → String → ℕ → Keys → Keys
expire_key now k s r j = if str_eq k j then with_expiry (now + s) (live now (r j)) else r j

-- One more tick on a live value; an expired key begins again.
abbrev pub tick : ℕ → Option Entry → Entry
tick now none = ("1", none)
tick now (some (v, none)) = (v +++ "1", none)
tick now (some (v, some e)) = if ltb now e then (v +++ "1", some e) else ("1", none)

pub live-with_expiry :
    (at e : ℕ) (o : Option String) → live at (with_expiry e o) ≡ (if ltb at e then o else none)
live-with_expiry at e none = ground arith
live-with_expiry at e (some v) = refl

pub seconds_left-tick :
    (now at : ℕ) (o : Option Entry)
    → leb now at ≡ true
    → seconds_left at (some (tick now o)) ≡ seconds_left at o
seconds_left-tick now at none h = refl
seconds_left-tick now at (some (v, none)) h = refl
seconds_left-tick now at (some (v, some e)) h = elim (Bool-cases (ltb now e)) [
  | inl k ↦ simp k
  | inr k ↦ let over : ltb at e ≡ false = ground arith in simp (k, over)
]

abbrev pub memory_server : Server Keys
memory_server = record {
  get = λ now j r. live now (r j);
  ttl_of = λ now j r. seconds_left now (r j);
  put = λ k v r. at_key k (some (v, none)) r;
  put_ex = λ now k v s r. at_key k (some (v, some (now + s))) r;
  remove = λ k r. at_key k none r;
  expire = expire_key;
  incr =
      λ now k r. (len (tick now (r k)).0, λ j. if str_eq k j then some (tick now (r j)) else r j);
  get_put = λ now k j v r. by_key now k j (some (v, none)) r;
  get_put_ex = λ now at k j v s r. by_key at k j (some (v, some (now + s))) r;
  get_remove = λ now k j r. by_key now k j none r;
  get_expire = λ now at k j s r. elim (Bool-cases (str_eq k j)) [
    | inl e ↦ rw e (live-with_expiry at (now + s) (live now (r j)))
    | inr e ↦ rw e refl
  ];
  get_incr_other = λ now at k j r e. rw e refl;
  ttl_put_ex =
      λ now at k j v s r. elim (Bool-cases (str_eq k j)) [ inl e ↦ rw e refl | inr e ↦ rw e refl ];
  ttl_remove =
      λ now k j r. elim (Bool-cases (str_eq k j)) [ inl e ↦ rw e refl | inr e ↦ rw e refl ];
  ttl_incr = λ now at k j r h. elim (Bool-cases (str_eq k j)) [
    | inl e ↦ rw e (seconds_left-tick now at (r j) h)
    | inr e ↦ rw e refl
  ];
}
  where
    by_key :
        (now : ℕ) (k j : String) (entry : Option Entry) (r : Keys)
        → live now (at_key k entry r j) ≡ (if str_eq k j then live now entry else live now (r j))
    by_key now k j entry r = elim (Bool-cases (str_eq k j)) [
      | inl e ↦ rw e refl
      | inr e ↦ rw e refl
    ]

-- A number in unary in front of a text, and a stored record as a text.
abbrev pub write_unary : ℕ → String → String
write_unary zero s = "," ∷ s
write_unary (suc n) s = "1" ∷ write_unary n s

abbrev pub read_unary : String → ℕ × String
read_unary [] = (0, "")
read_unary (c ∷ s) = let (n, rest) = read_unary s in if code c == 49 then (suc n, rest) else (0, s)

pub read_unary-write_unary : (n : ℕ) (s : String) → read_unary (write_unary n s) ≡ (n, s)
read_unary-write_unary zero s = refl
read_unary-write_unary (suc n) s = rw (read_unary-write_unary n s) refl

abbrev pub write_record : StoredRecord → String
write_record (processing at) = "p" ∷ write_unary at ""
write_record (completed status body at) = "c" ∷ write_unary status (write_unary at body)

abbrev pub read_record : String → Option StoredRecord
read_record [] = none
read_record (c ∷ s) =
    let (n, rest) = read_unary s in
    let (m, body) = read_unary rest in
    some (if code c == 112 then processing n else completed n body m)

pub read_record-write_record : (s : StoredRecord) → read_record (write_record s) ≡ some s
read_record-write_record (processing at) = rw (read_unary-write_unary at "") refl
read_record-write_record (completed status body at) =
    rw (read_unary-write_unary status (write_unary at body))
      (rw (read_unary-write_unary at body) refl)

abbrev pub memory_json : Json
memory_json = record {
  stringify = write_record;
  parse = read_record;
  parse_stringify = read_record-write_record;
}
