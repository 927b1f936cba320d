-- ===== src/Headers/Rules/Closest.antt =====
-- `find_match` selects the closest rule.
use pandora_web_server.Base.{
  ℕ, suc, ◌+◌, ◌≡◌, refl, sym, ap, ◌∙◌, ◌⊎◌, inl, inr, Bool, true, false, not, ◌&&◌, Bool-cases,
  Option, none, some, get_elem?, Bytes, List, [], ◌∷◌, All, if◌then◌else◌, arith,
}
use pandora_web_server.Merger.Matcher.{
  HostPathMatcher, PathMatchResult, is_match, empty, host_path_matches, host_path_le,
}
use pandora_web_server.Merger.Matcher.Order.{host_path_le_total, host_path_le_trans}
use pandora_web_server.Headers.Rules.{Found, exceeds, find_from, find_match}

-- A rule was found, and it is not smaller than this one.
abbrev pub Below : HostPathMatcher → Option HostPathMatcher → Type 0
Below rule none = ⊥
Below rule (some found) = host_path_le rule found ≡ true

host_path_le_refl : (a : HostPathMatcher) → host_path_le a a ≡ true
host_path_le_refl a = elim (Bool-cases (host_path_le a a)) [
  | inl e ↦ e
  | inr e ↦ host_path_le_total a a e
]

exceeds-Below :
    (o : Option HostPathMatcher) (r current : HostPathMatcher)
    → exceeds o current ≡ false
    → Below r o
    → host_path_le r current ≡ true
unfolding exceeds
exceeds-Below none r current h below = absurd below
exceeds-Below (some found) r current h below =
    host_path_le_trans r found current below (ground (arith, h))

Below-exceeds :
    (o : Option HostPathMatcher) (current : HostPathMatcher)
    → exceeds o current ≡ true
    → Below current o
unfolding exceeds
Below-exceeds none current h = absurd (ground (arith, h))
Below-exceeds (some found) current h = host_path_le_total found current (ground (arith, h))

module _ (host path : Bytes) (force_prefix : Bool) where
  -- The rule matches the place that is looked up.
  abbrev pub Applies : HostPathMatcher → Type 0
  Applies rule = is_match (host_path_matches rule host path force_prefix) ≡ true

  -- If a rule was found, it is the one at the index, it matches, and the result is its result.
  abbrev pub IsResult :
      List HostPathMatcher → Option HostPathMatcher → ℕ → PathMatchResult Unit → Type 0
  IsResult rules none index result = result ≡ empty
  IsResult rules (some rule) index result =
      (get_elem? rules index ≡ some rule)
      × Applies rule
      × (result ≡ host_path_matches rule host path force_prefix)

  chosen : ℕ → HostPathMatcher → Found → Found
  chosen index current previous =
      if is_match (host_path_matches current host path force_prefix)
        && not (exceeds previous.rule current)
      then record {
        result = host_path_matches current host path force_prefix;
        index = index;
        rule = some current;
      }
      else previous

  chosen-Below :
      (index : ℕ) (current r : HostPathMatcher) (previous : Found)
      → Below r previous.rule
      → Below r (chosen index current previous).rule
  unfolding chosen
  chosen-Below index current r previous below =
      elim (Bool-cases (
        is_match (host_path_matches current host path force_prefix)
        && not (exceeds previous.rule current))) [
          | inl e ↦ rw e (exceeds-Below previous.rule r current (ground (arith, e)) below)
          | inr e ↦ rw e below
        ]

  chosen-Applies :
      (index : ℕ) (current : HostPathMatcher) (previous : Found)
      → Applies current
      → Below current (chosen index current previous).rule
  unfolding chosen
  chosen-Applies index current previous applies =
      elim (Bool-cases (exceeds previous.rule current)) [
        | inl e ↦ rw (applies, e) (Below-exceeds previous.rule current e)
        | inr e ↦ rw (applies, e) (host_path_le_refl current)
      ]

  find_from-Below :
      (rules : List HostPathMatcher) (index : ℕ) (r : HostPathMatcher) (previous : Found)
      → Below r previous.rule
      → Below r (find_from rules index host path force_prefix previous).rule
  unfolding find_from chosen
  find_from-Below [] index r previous below = below
  find_from-Below (current ∷ rules) index r previous below =
      find_from-Below rules (suc index) r (chosen index current previous)
        (chosen-Below index current r previous below)

  find_from-All :
      (rules : List HostPathMatcher) (index : ℕ) (previous : Found)
      → All
          (λ r. Applies r → Below r (find_from rules index host path force_prefix previous).rule)
          rules
  unfolding find_from chosen
  find_from-All [] index previous = tt
  find_from-All (current ∷ rules) index previous = (
    (λ applies.
        find_from-Below rules (suc index) current (chosen index current previous)
          (chosen-Applies index current previous applies)),
    find_from-All rules (suc index) (chosen index current previous),
  )

  find_from-IsResult :
      (all rules : List HostPathMatcher) (index : ℕ) (previous : Found)
      → ((j : ℕ) → get_elem? rules j ≡ get_elem? all (index + j))
      → IsResult all previous.rule previous.index previous.result
      → (let found : Found = find_from rules index host path force_prefix previous in
          IsResult all found.rule found.index found.result)
  unfolding find_from chosen
  find_from-IsResult all [] index previous same h = h
  find_from-IsResult all (current ∷ rules) index previous same h =
      find_from-IsResult all rules (suc index) (chosen index current previous)
        (λ j. same (suc j) ∙ ap (get_elem? all) (omega arith))
        (step (
          Bool-cases (
            is_match (host_path_matches current host path force_prefix)
            && not (exceeds previous.rule current))))
    where
      step :
          (t : (is_match (host_path_matches current host path force_prefix)
                && not (exceeds previous.rule current)
              ≡ true)
            ⊎ (is_match (host_path_matches current host path force_prefix)
                  && not (exceeds previous.rule current)
                ≡ false))
          → IsResult all
              (chosen index current previous).rule
              (chosen index current previous).index
              (chosen index current previous).result
      step (inl e) = rw e (ap (get_elem? all) (omega arith) ∙ sym (same 0), ground (arith, e), refl)
      step (inr e) = rw e h

-- If a rule is found, it is the one at the index that is returned, it matches, and the result is
-- its result; otherwise the result is the empty one. Every rule that matches is at most the rule
-- that is found, which there is then.
pub find_match-closest :
    (host path : Bytes) (force_prefix : Bool) (rules : List HostPathMatcher)
    → (IsResult host path force_prefix rules
        (find_match rules host path force_prefix).rule
        (find_match rules host path force_prefix).index
        (find_match rules host path force_prefix).result)
      × All
          (λ r.
            Applies host path force_prefix r
            → Below r (find_match rules host path force_prefix).rule)
          rules
unfolding find_match
find_match-closest host path force_prefix rules = (
  find_from-IsResult host path force_prefix rules rules 0
      (record { result = empty; index = 0; rule = none }) (λ j. ap (get_elem? rules) (omega arith))
      refl,
  find_from-All host path force_prefix rules 0 (record { result = empty; index = 0; rule = none }),
)
