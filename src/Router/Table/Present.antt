-- ===== src/Router/Table/Present.antt =====
-- Whether sorted entries have one for a path.
use mathlib.Core.List.{append-nil}
use mathlib.Core.Path.{subst}
use pandora_web_server.Base.{
  ℕ, ◌≡◌, refl, sym, ap, ◌∙◌, inl, inr, true, Bool-cases, Option-cases, none, some, Bytes, List, [],
  ◌∷◌, ◌++◌, take, drop, bytes_le, bytes_eq, bytes_eq_iff, arith,
}
use pandora_web_server.Router.Table.{RouterEntry, at, belongs, next, search_path}
use pandora_web_server.Router.Table.Values.{entry_at, next-eq-at}
use pandora_web_server.Router.Table.Sorted.{Before, IsFound}
use pandora_web_server.Router.Table.Parents.{In, first, later, In-All, In-take-or-drop}

pub bytes_le-beginning : (a r : Bytes) → bytes_le a (a ++ r) ≡ true
bytes_le-beginning [] r = refl
bytes_le-beginning (x ∷ a) r = ground (arith, bytes_le-beginning a r)

module _ {ℓ} {V : Type ℓ} where
  pub In-entry_at :
      (path : Bytes) (l : List (RouterEntry V)) (e : RouterEntry V)
      → entry_at path l ≡ some e
      → In e l × (e.path ≡ path)
  unfolding entry_at
  In-entry_at path [] e h = absurd (cc h)
  In-entry_at path (y ∷ l) e h = elim (Bool-cases (bytes_eq y.path path)) [
    | inl same ↦
        let own : some y ≡ some e = rw (same, entry_at) at h in
        let is : y ≡ e = cc own in
        (first is, subst (λ x. x.path ≡ path) is ((bytes_eq_iff y.path path).0 same))
    | inr other ↦ let (m, p) = In-entry_at path l e (rw (other, entry_at) at h) in (later m, p)
  ]

  pub entry_at-at :
      (path : Bytes) (l : List (RouterEntry V)) (i : ℕ)
      → search_path path l ≡ at i
      → (old : RouterEntry V) × (entry_at path l ≡ some old)
  unfolding search_path entry_at
  entry_at-at path [] i e = cc e
  entry_at-at path (y ∷ l) i e = elim (Bool-cases (bytes_eq y.path path)) [
    | inl same ↦ (y, rw (same, entry_at) refl)
    | inr other ↦ elim (Bool-cases (bytes_le path y.path)) [
      | inl here ↦ let bad : belongs 0 ≡ at i = rw (other, here) at e in cc bad
      | inr behind ↦
          let step : next (search_path path l) ≡ at i = rw (other, behind) at e in
          let (j, _, found) = next-eq-at (search_path path l) i step in
          let (old, f) = entry_at-at path l j found in (old, rw (other, entry_at) f)
    ]
  ]

  pub entry_at-belongs :
      (path : Bytes) (l : List (RouterEntry V)) (i : ℕ)
      → IsFound path l (belongs i)
      → entry_at path l ≡ none
  unfolding IsFound
  entry_at-belongs path l i (_, smaller, greater) = elim (Option-cases (entry_at path l)) [
    | inl e ↦ e
    | inr (x, e) ↦
        let (m, same) = In-entry_at path l x e in
        let le : bytes_le path path ≡ true =
          ap (bytes_le path) (sym (append-nil path)) ∙ bytes_le-beginning path [] in
        elim (In-take-or-drop i l x m) [
          | inl n ↦
              let before =
                subst (λ p. Before p path) same
                  (In-All (λ x. Before x.path path) (take i l) smaller x n) in
              absurd (cc (le, before))
          | inr n ↦
              let before =
                subst (λ p. Before path p) same
                  (In-All (λ x. Before path x.path) (drop i l) greater x n) in
              absurd (cc (le, before))
        ]
  ]
