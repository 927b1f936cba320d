-- ===== src/Router/Path/Parent.antt =====
-- `is_prefix_of` compares whole segments.
use mathlib.Core.Path.{subst}
use mathlib.Core.List.{append-nil, append_assoc}
use pandora_web_server.Base.{
  take-length, take-length-append, ℕ, zero, suc, ◌≤◌, true, ◌≡◌, refl, sym, ap, ◌∙◌, ◌≢◌, ◌⊎◌, inl,
  inr, ◌↔◌, Bytes, List, [], ◌∷◌, ◌++◌, split, length, take, drop, take-append-drop, ◌==◌, ==_iff,
  Bool-cases, arith,
}
use pandora_web_server.Trie.Prefix.{separator, common_prefix_length}
use pandora_web_server.Trie.Prefix.Longest.{IsBoundary, IsCommon, common_prefix_length-longest}
use pandora_web_server.Router.Path.{normalize, is_prefix_of}
use pandora_web_server.Router.Path.Normal.{drop_empty, join, normalize_lem, eq-nil_of_join}
use pandora_web_server.Router.Path.Segments.{segments_of, normalize-segments}

-- What is left of a label behind a boundary.
abbrev pub IsBehind : Bytes → Type 0
IsBehind [] = Unit
IsBehind (b ∷ rest) = b ≡ separator

le_of_IsBoundary : (a : Bytes) (n : ℕ) → IsBoundary a n → n ≤ length a
le_of_IsBoundary [] n h = omega arith
le_of_IsBoundary (x ∷ a) zero h = omega arith
le_of_IsBoundary (x ∷ a) (suc n) h = omega (arith, le_of_IsBoundary a n h)

IsBoundary-length : (a : Bytes) → IsBoundary a (length a)
IsBoundary-length [] = refl
IsBoundary-length (x ∷ a) = IsBoundary-length a

IsBoundary-append : (a rest : Bytes) → IsBehind rest → IsBoundary (a ++ rest) (length a)
IsBoundary-append [] [] h = refl
IsBoundary-append [] (b ∷ rest) h = h
IsBoundary-append (x ∷ a) rest h = IsBoundary-append a rest h

IsBehind-drop : (b : Bytes) (n : ℕ) → IsBoundary b n → IsBehind (drop n b)
IsBehind-drop [] zero h = tt
IsBehind-drop [] (suc n) h = tt
IsBehind-drop (x ∷ b) zero h = h
IsBehind-drop (x ∷ b) (suc n) h = IsBehind-drop b n h

-- A label is a prefix of another one exactly if it is empty, or the other one goes on behind it
-- at a boundary.
pub is_prefix_of_iff :
    (a b : Bytes)
    → (is_prefix_of a b ≡ true) ↔ ((a ≡ []) ⊎ ((rest : Bytes) × (b ≡ a ++ rest) × IsBehind rest))
unfolding is_prefix_of
is_prefix_of_iff a b = (forward, backward)
  where
    n : ℕ
    n = common_prefix_length a b

    split_off : length a ≡ n → IsCommon a b n → (rest : Bytes) × (b ≡ a ++ rest) × IsBehind rest
    split_off e c = (
      drop n b,
      sym (take-append-drop n b)
          ∙ ap (λ r. r ++ drop n b) (sym c.same ∙ ap (λ k. take k a) (sym e) ∙ take-length a),
      IsBehind-drop b n c.right,
    )

    forward : (n == length a) ≡ true → (a ≡ []) ⊎ ((rest : Bytes) × (b ≡ a ++ rest) × IsBehind rest)
    forward h = elim ((common_prefix_length-longest a b).1) [
      | inl c ↦ inr (split_off (sym ((==_iff _ _).0 h)) c)
      | inr (z, _) ↦ inl (empty a (sym ((==_iff _ _).0 h) ∙ z))
    ]
      where
        empty : (a : Bytes) → length a ≡ 0 → a ≡ []
        empty [] e = refl
        empty (x ∷ a) e = absurd (omega arith)

    most : n ≤ length a
    most = elim ((common_prefix_length-longest a b).1) [
      | inl c ↦ le_of_IsBoundary a n c.left
      | inr (z, _) ↦ omega (arith, z)
    ]

    least : (a ≡ []) ⊎ ((rest : Bytes) × (b ≡ a ++ rest) × IsBehind rest) → length a ≤ n
    least (inl e) = omega (arith, ap length e)
    least (inr (rest, e, behind)) = (common_prefix_length-longest a b).0 (length a) (record {
      same = take-length a ∙ sym (take-length-append a rest) ∙ ap (take (length a)) (sym e);
      left = IsBoundary-length a;
      right = subst (λ r. IsBoundary r (length a)) (sym e) (IsBoundary-append a rest behind);
    })

    backward :
        (a ≡ []) ⊎ ((rest : Bytes) × (b ≡ a ++ rest) × IsBehind rest) → (n == length a) ≡ true
    backward h = (==_iff _ _).1 (omega (arith, most, least h))

drop_empty-append : (ps qs : List Bytes) → drop_empty (ps ++ qs) ≡ drop_empty ps ++ drop_empty qs
drop_empty-append [] qs = refl
drop_empty-append ([] ∷ ps) qs = drop_empty-append ps qs
drop_empty-append ((b ∷ p) ∷ ps) qs = ap (λ r. (b ∷ p) ∷ r) (drop_empty-append ps qs)

abbrev cons_head : ℕ → List Bytes → List Bytes
cons_head b [] = (b ∷ []) ∷ []
cons_head b (part ∷ parts) = (b ∷ part) ∷ parts

split-ne-nil : (path : Bytes) → split separator path ≢ []
split-ne-nil [] e = cc e
split-ne-nil (b ∷ path) e = elim (Bool-cases (b == separator)) [
  | inl slash ↦ let bad : [] ∷ split separator path ≡ [] = rw slash at e in cc bad
  | inr plain ↦
      let bad : cons_head b (split separator path) ≡ [] = rw plain at e in
      cons_head-ne-nil b (split separator path) bad
]
  where
    cons_head-ne-nil : (b : ℕ) (parts : List Bytes) → cons_head b parts ≢ []
    cons_head-ne-nil b [] e = cc e
    cons_head-ne-nil b (part ∷ parts) e = cc e

cons_head-append :
    (b : ℕ) (ps qs : List Bytes) → ps ≢ [] → cons_head b (ps ++ qs) ≡ cons_head b ps ++ qs
cons_head-append b [] qs h = absurd (h refl)
cons_head-append b (p ∷ ps) qs h = refl

split-slash :
    (a rest : Bytes)
    → split separator (a ++ separator ∷ rest) ≡ split separator a ++ split separator rest
split-slash [] rest = refl
split-slash (x ∷ a) rest = elim (Bool-cases (x == separator)) [
  | inl slash ↦ rw (slash) (ap (λ r. [] ∷ r) (split-slash a rest))
  | inr plain ↦ rw plain (
      ap (cons_head x) (split-slash a rest)
      ∙ cons_head-append x (split separator a) (split separator rest) (split-ne-nil a))
]

segments_of-behind :
    (a rest : Bytes) → IsBehind rest → segments_of (a ++ rest) ≡ segments_of a ++ segments_of rest
segments_of-behind a [] h = ap segments_of (append-nil a) ∙ sym (append-nil (segments_of a))
segments_of-behind a (b ∷ rest) h = rw h (
    ap drop_empty (split-slash a rest)
    ∙ drop_empty-append (split separator a) (split separator rest))

join-append :
    (ps qs : List Bytes)
    → (ps ≡ []) ⊎ ((rest : Bytes) × (join (ps ++ qs) ≡ join ps ++ rest) × IsBehind rest)
join-append [] qs = inl refl
join-append (p ∷ []) [] = inr ([], sym (append-nil p), tt)
join-append (p ∷ []) (q ∷ qs) = inr (separator ∷ join (q ∷ qs), refl, refl)
join-append (p ∷ r ∷ ps) qs = elim (join-append (r ∷ ps) qs) [
  | inl e ↦ cc e
  | inr (rest, e, behind) ↦ inr (
    rest,
    ap (λ s. p ++ separator ∷ s) e ∙ sym (append_assoc p (separator ∷ join (r ∷ ps)) rest),
    behind,
  )
]

-- A normalized path is a prefix of another one exactly if its segments are the first segments of
-- the other one: `/dir` is a prefix of `/dir/file` and not of `/dirabc`.
pub is_prefix_of-segments :
    (p q : Bytes)
    → (is_prefix_of (normalize p) (normalize q) ≡ true)
      ↔ ((rest : List Bytes) × (segments_of q ≡ segments_of p ++ rest))
is_prefix_of-segments p q = (forward, backward)
  where
    below :
        (normalize p ≡ []) ⊎ ((rest : Bytes) × (normalize q ≡ normalize p ++ rest) × IsBehind rest)
        → (rest : List Bytes) × (segments_of q ≡ segments_of p ++ rest)
    below (inl e) = (
      segments_of q,
      ap (λ s. s ++ segments_of q)
          (sym (eq-nil_of_join (split separator p) (sym (normalize_lem p) ∙ e))),
    )
    below (inr (rest, e, behind)) = (
      segments_of rest,
      sym ((normalize-segments q).0)
          ∙ ap segments_of e
          ∙ segments_of-behind (normalize p) rest behind
          ∙ ap (λ s. s ++ segments_of rest) ((normalize-segments p).0),
    )

    forward :
        is_prefix_of (normalize p) (normalize q) ≡ true
        → (rest : List Bytes) × (segments_of q ≡ segments_of p ++ rest)
    forward h = below ((is_prefix_of_iff (normalize p) (normalize q)).0 h)

    goes_on :
        (rest : List Bytes)
        → segments_of q ≡ segments_of p ++ rest
        → (normalize p ≡ []) ⊎ ((r : Bytes) × (normalize q ≡ normalize p ++ r) × IsBehind r)
    goes_on rest e = elim (join-append (segments_of p) rest) [
      | inl none_left ↦ inl (normalize_lem p ∙ ap join none_left)
      | inr (r, j, behind) ↦
          inr
            (r, normalize_lem q ∙ ap join e ∙ j ∙ ap (λ s. s ++ r) (sym (normalize_lem p)), behind)
    ]

    backward :
        (rest : List Bytes) × (segments_of q ≡ segments_of p ++ rest)
        → is_prefix_of (normalize p) (normalize q) ≡ true
    backward (rest, e) = (is_prefix_of_iff (normalize p) (normalize q)).1 (goes_on rest e)
