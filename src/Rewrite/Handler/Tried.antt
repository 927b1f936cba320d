-- ===== src/Rewrite/Handler/Tried.antt =====
-- Which of the rules for a path a request is treated with.
use mathlib.Core.List.{reverse-cons, reverse-append, append_assoc}
use mathlib.Core.Path.{subst}
use pandora_web_server.Base.{
  ◌≡◌, ◌↔◌, Bool, ◌&&◌, refl, sym, ap, ◌∙◌, true, false, not, Bool-cases, inl, inr, Option, none,
  some, Bytes, List, [], ◌∷◌, ◌++◌, All, reverse, if◌then◌else◌,
}
use pandora_web_server.Router.Table.Normal.{All-append}
use pandora_web_server.Trie.Flat.{LookupResult}
use pandora_web_server.Router.Routes.{Router, lookup}
use pandora_web_server.Rewrite.Handler.{
  RegexMatch, regex_matches, Rule, Request, Outcome, unhandled, unwrap_or_empty, condition, applies,
  apply, apply_rules, request_filter,
}

-- The text meets the condition, if there is one: the expression matches it, or does not match it if
-- the condition is negated.
abbrev pub Meets : Option RegexMatch → Bytes → Type 0
Meets none text = Unit
Meets (some m) text = m.regex text ≡ (if m.negate then false else true)

module _ {H U : Type 0} (request : Request H U) where
  -- The conditions of a rule on the path and the query of the request.
  abbrev pub Accepts : Bytes × Rule H → Type 0
  Accepts (path, rule) =
      Meets rule.from_regex request.path
      × Meets rule.query_regex (unwrap_or_empty request.query_string)

  -- How the rules of a path end: with the last one whose conditions are met.
  pub data Tried : List (Bytes × Rule H) → Outcome U → Type 0 where
    by_none : (rules : List (Bytes × Rule H)) → All (λ r. ¬ Accepts r) rules → Tried rules unhandled
    by_last :
        (before : List (Bytes × Rule H)) (r : Bytes × Rule H) (after : List (Bytes × Rule H))
        → Accepts r
        → All (λ r. ¬ Accepts r) after
        → Tried (before ++ r ∷ after) (apply request r)

  negated :
      (negate matches : Bool)
      → ((if negate then not matches else matches) ≡ true)
        ↔ (matches ≡ (if negate then false else true))
  negated true true = ((λ e. absurd (cc e)), (λ e. absurd (cc e)))
  negated true false = ((λ e. refl), (λ e. refl))
  negated false true = ((λ e. refl), (λ e. refl))
  negated false false = ((λ e. absurd (cc e)), (λ e. absurd (cc e)))

  condition_iff : (m : Option RegexMatch) (text : Bytes) → (condition m text ≡ true) ↔ Meets m text
  unfolding condition regex_matches
  condition_iff none text = ((λ e. tt), (λ e. refl))
  condition_iff (some m) text = negated m.negate (m.regex text)

  applies_iff : (r : Bytes × Rule H) → (applies request r.1 ≡ true) ↔ Accepts r
  unfolding applies
  applies_iff (path, rule) = (forward, backward)
    where
      first : Bool
      first = condition rule.from_regex request.path

      second : Bool
      second = condition rule.query_regex (unwrap_or_empty request.query_string)

      both : (a b : Bool) → (a && b) ≡ true → (a ≡ true) × (b ≡ true)
      both true b e = (refl, e)
      both false b e = absurd (cc e)

      forward : (first && second) ≡ true → Accepts (path, rule)
      forward e =
          let (f, g) = both first second e in ((condition_iff _ _).0 f, (condition_iff _ _).0 g)

      backward : Accepts (path, rule) → (first && second) ≡ true
      backward (f, g) =
          let f' = (condition_iff rule.from_regex request.path).1 f in
          let g' = (condition_iff rule.query_regex (unwrap_or_empty request.query_string)).1 g in
          ap (λ a. a && second) f' ∙ g'

  -- The first rule that applies decides, whatever is behind it.
  apply_rules-append :
      (a b : List (Bytes × Rule H)) (r : Bytes × Rule H)
      → Accepts r
      → All (λ r. ¬ Accepts r) a
      → apply_rules request (a ++ r ∷ b) ≡ apply request r
  unfolding apply_rules
  apply_rules-append [] b r own lacks = rw ((applies_iff r).1 own) refl
  apply_rules-append (x ∷ a) b r own (lacks, more) = elim (Bool-cases (applies request x.1)) [
    | inl e ↦ absurd (lacks ((applies_iff x).0 e))
    | inr e ↦ rw e (apply_rules-append a b r own more)
  ]

  apply_rules-none :
      (a : List (Bytes × Rule H)) → All (λ r. ¬ Accepts r) a → apply_rules request a ≡ unhandled
  unfolding apply_rules
  apply_rules-none [] lacks = refl
  apply_rules-none (x ∷ a) (lacks, more) = elim (Bool-cases (applies request x.1)) [
    | inl e ↦ absurd (lacks ((applies_iff x).0 e))
    | inr e ↦ rw e (apply_rules-none a more)
  ]

  All-reverse :
      (a : List (Bytes × Rule H)) → All (λ r. ¬ Accepts r) a → All (λ r. ¬ Accepts r) (reverse a)
  All-reverse [] all = tt
  All-reverse (x ∷ a) (p, all) =
      subst (All (λ r. ¬ Accepts r)) (sym (reverse-cons x a))
        (All-append (λ r. ¬ Accepts r) (reverse a) (x ∷ []) (All-reverse a all) (p, tt))

  -- A list of rules has a last one that accepts the request, or none.
  data Last : List (Bytes × Rule H) → Type 0 where
    nowhere : (rules : List (Bytes × Rule H)) → All (λ r. ¬ Accepts r) rules → Last rules
    last :
        (before : List (Bytes × Rule H)) (r : Bytes × Rule H) (after : List (Bytes × Rule H))
        → Accepts r
        → All (λ r. ¬ Accepts r) after
        → Last (before ++ r ∷ after)

  find-Last : (rules : List (Bytes × Rule H)) → Last rules
  find-Last [] = nowhere [] tt
  find-Last (x ∷ rules) = go rules (find-Last rules)
    where
      go : (rules : List (Bytes × Rule H)) → Last rules → Last (x ∷ rules)
      go _ (last before r after own lacks) = last (x ∷ before) r after own lacks
      go rules (nowhere _ lacks) = elim (Bool-cases (applies request x.1)) [
        | inl e ↦ last [] x rules ((applies_iff x).0 e) lacks
        | inr e ↦ nowhere (x ∷ rules) ((λ a. let f = (applies_iff x).1 a in cc (e, f)), lacks)
      ]

  apply_rules-Tried :
      (rules : List (Bytes × Rule H)) → Tried rules (apply_rules request (reverse rules))
  apply_rules-Tried rules = go rules (find-Last rules)
    where
      go :
          (rules : List (Bytes × Rule H))
          → Last rules
          → Tried rules (apply_rules request (reverse rules))
      go rules (nowhere _ lacks) =
          subst (Tried rules) (sym (apply_rules-none (reverse rules) (All-reverse rules lacks)))
            (by_none rules lacks)
      go _ (last before r after own lacks) =
          let turned : reverse (before ++ r ∷ after) ≡ reverse after ++ r ∷ reverse before =
            reverse-append before (r ∷ after)
            ∙ ap (λ l. l ++ reverse before) (reverse-cons r after)
            ∙ append_assoc (reverse after) (r ∷ []) (reverse before) in
          subst (Tried (before ++ r ∷ after))
            (sym (
              ap (apply_rules request) turned
              ∙ apply_rules-append (reverse after) (reverse before) r own
                  (All-reverse after lacks)))
            (by_last before r after own lacks)

  -- If the router finds a list of rules for the path of a request, then the request is treated with
  -- the last rule of the list whose conditions on the path and the query are met, and left as it is
  -- if there is none: a condition is met if its expression matches, or does not if it is negated.
  pub request_filter-Tried :
      (router : Router (List (Bytes × Rule H))) (found : LookupResult (List (Bytes × Rule H)))
      → lookup router [] request.path ≡ some found
      → Tried found.value (request_filter request router)
  unfolding request_filter
  request_filter-Tried router found e = rw (e, request_filter) (apply_rules-Tried found.value)
