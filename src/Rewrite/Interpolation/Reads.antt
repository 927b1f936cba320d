-- ===== src/Rewrite/Interpolation/Reads.antt =====
-- The parts of a text are its variables from the left and the text between them.
use pandora_web_server.Base.{
  ℕ, suc, zero, ◌≤◌, ◌≡◌, refl, sym, ◌∙◌, Option, Bytes, [], ◌∷◌, length, take, drop, arith,
  length-drop,
}
use pandora_web_server.Rewrite.Interpolation.{Variable, scan, parts_of, from_str}
use pandora_web_server.Rewrite.Interpolation.Leftmost.{
  Reading, behind, behind-nil, leftmost, Parts, ended, plain, reads,
}
use pandora_web_server.Rewrite.Interpolation.Scan.{Scanned, nothing, found, scan-leftmost}

module _ {H : Type 0} (header_name : Bytes → Option H) where
  parts_of-Parts :
      (fuel : ℕ) (value : Bytes)
      → length value ≤ fuel
      → Parts header_name value (parts_of header_name fuel value)
  unfolding parts_of
  parts_of-Parts fuel [] h = ended
  parts_of-Parts zero (c ∷ s) h = absurd (omega arith)
  parts_of-Parts (suc fuel) (c ∷ s) fits =
      go _ _ refl refl (scan-leftmost header_name (suc (length value)) value 0 (omega arith))
        (parts_of-Parts fuel)
    where
      value : Bytes
      value = c ∷ s

      go :
          (o : Option (ℕ × ℕ × Variable H)) (r : Option (Reading H))
          → scan header_name (suc (length value)) value 0 ≡ o
          → behind [] (leftmost header_name value) ≡ r
          → Scanned header_name value o r
          → ((rest : Bytes)
              → length rest ≤ fuel
              → Parts header_name rest (parts_of header_name fuel rest))
          → Parts header_name value (parts_of header_name (suc fuel) value)
      go _ _ e f nothing next = rw (e, parts_of) (plain c s (sym (behind-nil _) ∙ f))
      go _ _ e f (found start end v) next =
          let rest = drop (suc end) value in
          let len = length-drop (suc end) value in
          rw (e, parts_of)
            (reads value (take start value) v rest _ (sym (behind-nil _) ∙ f)
              (next rest (omega (arith, len, fits))))

  -- The parts of every text are its variables from the left, with the text between them.
  pub from_str-Parts : (value : Bytes) → Parts header_name value (from_str header_name value)
  unfolding from_str
  from_str-Parts value = parts_of-Parts (length value) value (omega arith)
