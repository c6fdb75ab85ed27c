-- ===== src/Redis/Distinct.antt =====
-- The order in which infrastructure/redis/redis-business.service.ts takes locks: the resources
-- sorted, each once.
use mib_server.Prelude.{
  ◌≡◌, refl, sym, ◌∙◌, String, str_eq, Bool, true, false, not, ◌&&◌, ◌||◌, inl, inr, List, [], ◌∷◌,
  any, arith, Bool-cases, eq_iff,
}
use mib_server.Redis.Locks.{drop_eq, distinct, insert_text, sort_texts, text_le}

-- No text stands twice.
abbrev pub all_differ : List String → Bool
all_differ [] = true
all_differ (x ∷ xs) = not (any (str_eq x) xs) && all_differ xs

pub str_eq_sym : (a b : String) → str_eq a b ≡ str_eq b a
str_eq_sym a b = elim (Bool-cases (str_eq a b)) [
  | inl e ↦ e ∙ sym ((eq_iff b a).1 (sym ((eq_iff a b).0 e)))
  | inr e ↦ elim (Bool-cases (str_eq b a)) [
    | inl f ↦ absurd (cc (sym e ∙ (eq_iff a b).1 (sym ((eq_iff b a).0 f))))
    | inr f ↦ e ∙ sym f
  ]
]

any-insert_text :
    (p : String → Bool) (s : String) (ts : List String)
    → any p (insert_text s ts) ≡ (p s || any p ts)
any-insert_text p s [] = refl
any-insert_text p s (t ∷ ts) = elim (Bool-cases (text_le s t)) [
  | inl e ↦ rw e refl
  | inr e ↦ rw e (ground (arith, any-insert_text p s ts))
]

pub any-sort_texts : (p : String → Bool) (ss : List String) → any p (sort_texts ss) ≡ any p ss
unfolding sort_texts
any-sort_texts p [] = refl
any-sort_texts p (s ∷ ss) = ground (arith, any-insert_text p s (sort_texts ss), any-sort_texts p ss)

insert_text-differ :
    (s : String) (ts : List String)
    → any (str_eq s) ts ≡ false
    → all_differ ts ≡ true
    → all_differ (insert_text s ts) ≡ true
insert_text-differ s [] h k = refl
insert_text-differ s (t ∷ ts) h k = elim (Bool-cases (text_le s t)) [
  | inl e ↦ rw e (ground arith)
  | inr e ↦
      rw e
        (ground (arith, any-insert_text (str_eq t) s ts, str_eq_sym s t, insert_text-differ s ts))
]

sort_texts-differ : (ss : List String) → all_differ ss ≡ true → all_differ (sort_texts ss) ≡ true
unfolding sort_texts
sort_texts-differ [] h = refl
sort_texts-differ (s ∷ ss) h =
    insert_text-differ s (sort_texts ss) (any-sort_texts (str_eq s) ss ∙ ground arith)
      (sort_texts-differ ss (ground arith))

any-drop_eq :
    (p : String → Bool) (x : String) (ys : List String)
    → any p ys ≡ false
    → any p (drop_eq x ys) ≡ false
any-drop_eq p x [] h = refl
any-drop_eq p x (y ∷ ys) h = ground (arith, any-drop_eq p x ys)

drop_eq-gone : (x : String) (ys : List String) → any (str_eq x) (drop_eq x ys) ≡ false
drop_eq-gone x [] = refl
drop_eq-gone x (y ∷ ys) = ground (arith, drop_eq-gone x ys)

drop_eq-differ :
    (x : String) (ys : List String) → all_differ ys ≡ true → all_differ (drop_eq x ys) ≡ true
drop_eq-differ x [] h = refl
drop_eq-differ x (y ∷ ys) h = ground (arith, any-drop_eq (str_eq y) x ys, drop_eq-differ x ys)

distinct-differ : (rs : List String) → all_differ (distinct rs) ≡ true
unfolding distinct
distinct-differ [] = refl
distinct-differ (r ∷ rs) =
    ground
      (arith, drop_eq-gone r (distinct rs), drop_eq-differ r (distinct rs) (distinct-differ rs))

any-distinct :
    (p : String → Bool) (rs : List String) → any p rs ≡ false → any p (distinct rs) ≡ false
unfolding distinct
any-distinct p [] h = refl
any-distinct p (r ∷ rs) h =
    let here : p r ≡ false = ground arith in
    let rest : any p rs ≡ false = ground arith in
    rw here (any-drop_eq p r (distinct rs) (any-distinct p rs rest))

-- The order of the locks: each resource once, and only those that were named.
pub order-differ : (rs : List String) → all_differ (sort_texts (distinct rs)) ≡ true
order-differ rs = sort_texts-differ (distinct rs) (distinct-differ rs)

pub order-free :
    (p : String → Bool) (rs : List String)
    → any p rs ≡ false
    → any p (sort_texts (distinct rs)) ≡ false
order-free p rs h = any-sort_texts p (distinct rs) ∙ any-distinct p rs h
