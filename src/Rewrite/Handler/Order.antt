-- ===== src/Rewrite/Handler/Order.antt =====
-- The order in which the rules are pushed to the merger.
use mathlib.Core.List.{reverse-cons, reverse-reverse, append-nil}
use pandora_web_server.Base.{
  ◌≡◌, refl, sym, ap, ◌∙◌, Bool, true, false, not, ◌||◌, ◌&&◌, Bool-cases, inl, inr, List, [], ◌∷◌,
  ◌++◌, reverse, sort, insert_sorted, if◌then◌else◌, arith, bytes_eq, bytes_eq_iff,
}
use pandora_web_server.Merger.Matcher.{PathMatcher, path_le}
use pandora_web_server.Rewrite.Handler.{RewriteRule, ordered}

module _ {A : Type 0} (p : A → Bool) where
  abbrev pub select : List A → List A
  select [] = []
  select (x ∷ l) = if p x then x ∷ select l else select l

  select-append : (a b : List A) → select (a ++ b) ≡ select a ++ select b
  select-append [] b = refl
  select-append (x ∷ a) b = elim (Bool-cases (p x)) [
    | inl h ↦ rw (h, select-append a b) refl
    | inr h ↦ rw (h, select-append a b) refl
  ]

  select-reverse : (l : List A) → select (reverse l) ≡ reverse (select l)
  select-reverse [] = refl
  select-reverse (x ∷ l) = elim (Bool-cases (p x)) [
    | inl h ↦
        ap select (reverse-cons x l)
        ∙ select-append (reverse l) (x ∷ [])
        ∙ rw (h, select-reverse l) (sym (reverse-cons x (select l)))
    | inr h ↦
        ap select (reverse-cons x l)
        ∙ select-append (reverse l) (x ∷ [])
        ∙ rw (h, select-reverse l) (append-nil (reverse (select l)))
  ]

  module _ (le : A → A → Bool) where
    inserted_before :
        (x y : A) (l : List A) → le x y ≡ true → insert_sorted le x (y ∷ l) ≡ x ∷ y ∷ l
    inserted_before x y l h = rw (h, insert_sorted) refl

    inserted_behind :
        (x y : A) (l : List A)
        → le x y ≡ false
        → insert_sorted le x (y ∷ l) ≡ y ∷ insert_sorted le x l
    inserted_behind x y l h = rw (h, insert_sorted) refl

    select-insert_out :
        (x : A) (l : List A) → p x ≡ false → select (insert_sorted le x l) ≡ select l
    select-insert_out x [] h = rw h refl
    select-insert_out x (y ∷ l) h = elim (Bool-cases (le x y)) [
      | inl e ↦ ap select (inserted_before x y l e) ∙ rw h refl
      | inr e ↦ ap select (inserted_behind x y l e) ∙ rw (select-insert_out x l h) refl
    ]

    select-insert_in :
        (x : A) (l : List A)
        → p x ≡ true
        → ((y : A) → p y ≡ true → le x y ≡ true)
        → select (insert_sorted le x l) ≡ x ∷ select l
    select-insert_in x [] h first = rw h refl
    select-insert_in x (y ∷ l) h first = elim (Bool-cases (le x y)) [
      | inl e ↦ ap select (inserted_before x y l e) ∙ rw h refl
      | inr e ↦ elim (Bool-cases (p y)) [
        | inl f ↦ absurd (let g = first y f in cc (e, g))
        | inr f ↦ ap select (inserted_behind x y l e) ∙ rw (f, select-insert_in x l h first) refl
      ]
    ]

    select-sort :
        ((x y : A) → p x ≡ true → p y ≡ true → le x y ≡ true)
        → (l : List A) → select (sort le l) ≡ select l
    select-sort alike [] = refl
    select-sort alike (x ∷ l) = elim (Bool-cases (p x)) [
      | inl h ↦
          select-insert_in x (sort le l) h (λ y. alike x y h) ∙ rw (h, select-sort alike l) refl
      | inr h ↦ select-insert_out x (sort le l) h ∙ rw (h, select-sort alike l) refl
    ]

-- The rules with a field `from`.
abbrev pub same_from : {H : Type 0} → PathMatcher → RewriteRule H → Bool
same_from m r = bytes_eq r.from.path m.path && (if m.exact then r.from.exact else not r.from.exact)

alike_exact :
    (m a b : Bool)
    → (if m then a else not a) ≡ true
    → (if m then b else not b) ≡ true
    → (not a || b) ≡ true
alike_exact true a true h k = ground arith
alike_exact true a false h k = cc k
alike_exact false true b h k = cc h
alike_exact false false b h k = refl

and_true : (a b : Bool) → (a && b) ≡ true → (a ≡ true) × (b ≡ true)
and_true true b h = (refl, h)
and_true false b h = absurd (cc h)

path_le-alike :
    {H : Type 0} (m : PathMatcher) (a b : RewriteRule H)
    → same_from m a ≡ true
    → same_from m b ≡ true
    → path_le a.from b.from ≡ true
unfolding path_le
path_le-alike m a b h k =
    let (p, p') = and_true _ _ h in
    let (q, q') = and_true _ _ k in
    let same =
      (bytes_eq_iff a.from.path m.path).0 p ∙ sym ((bytes_eq_iff b.from.path m.path).0 q) in
    rw ((bytes_eq_iff a.from.path b.from.path).1 same)
      (alike_exact m.exact a.from.exact b.from.exact p' q')

-- Read from its end, the list that is pushed has the rules with the same `from` in the order of the
-- configuration.
pub ordered-configuration :
    {H : Type 0} (m : PathMatcher) (rules : List (RewriteRule H))
    → select (same_from m) (reverse (ordered rules)) ≡ select (same_from m) rules
unfolding ordered
ordered-configuration m rules =
    select-reverse (same_from m) (ordered rules)
    ∙ ap reverse (
        select-sort (same_from m) (λ a b. path_le a.from b.from) (path_le-alike m) (reverse rules)
        ∙ select-reverse (same_from m) rules)
    ∙ reverse-reverse (select (same_from m) rules)
