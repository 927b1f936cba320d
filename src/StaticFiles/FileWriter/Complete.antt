-- ===== src/StaticFiles/FileWriter/Complete.antt =====
-- The body of a response is the range that was asked for.
use mathlib.Core.Path.{subst}
use pandora_web_server.Base.{
  ℕ, zero, suc, ◌+◌, ◌-◌, ◌≤◌, ◌<◌, min, ◌≡◌, refl, sym, ap, ◌∙◌, inl, inr, Bool-cases, Bytes, List,
  [], ◌∷◌, ◌++◌, take, drop, length, drop-drop, take-split, take-length, add_u64, sub_u64, u64_mod,
  ◌==◌, arith,
}
use pandora_web_server.StaticFiles.FileWriter.{
  buffer_size, Response, complete, cut_off, stuck, with_chunk, write_chunks, file_response,
}

-- What `Read::read` promises: at most the bytes that are wanted and that the file has, and some
-- if there are any.
pub record Reads (file : Bytes) (read : ℕ → ℕ → ℕ) : Type 0 where
  pub at_most : (position wanted : ℕ) → read position wanted ≤ min wanted (length file - position)
  pub some_bytes :
      (position wanted : ℕ) → 0 < wanted → position < length file → 0 < read position wanted

abbrev pub concat : List Bytes → Bytes
concat [] = []
concat (chunk ∷ chunks) = chunk ++ concat chunks

-- The response is complete, and its chunks make up `body`.
abbrev pub Sent : Bytes → Response → Type 0
Sent body (complete chunks) = concat chunks ≡ body
Sent body (cut_off chunks) = ⊥
Sent body stuck = ⊥

Sent-with_chunk :
    (chunk body : Bytes) (r : Response) → Sent body r → Sent (chunk ++ body) (with_chunk chunk r)
Sent-with_chunk chunk body (complete chunks) h = ap (λ b. chunk ++ b) h
Sent-with_chunk chunk body (cut_off chunks) h = h
Sent-with_chunk chunk body stuck h = h

module _ (file : Bytes) (read : ℕ → ℕ → ℕ) (reads : Reads file read) where
  write_chunks-Sent :
      (fuel position remaining : ℕ)
      → remaining ≤ fuel
      → position + remaining ≤ length file
      → Sent (take remaining (drop position file)) (write_chunks file read fuel position remaining)
  unfolding write_chunks
  write_chunks-Sent fuel position zero h k = refl
  write_chunks-Sent zero position (suc remaining) h k = absurd (omega arith)
  write_chunks-Sent (suc fuel) position (suc remaining) h k =
      let wanted = min (suc remaining) buffer_size in
      let len = read position wanted in
      let left = suc remaining - len in
      let here = drop position file in
      let most = reads.at_most position wanted in
      let least = reads.some_bytes position wanted (omega arith) (omega arith) in
      let rest = write_chunks-Sent fuel (position + len) left (omega arith) (omega arith) in
      let joined : take len here ++ take left (drop (position + len) file)
          ≡ take (suc remaining) here =
        ap (λ b. take len here ++ take left b) (sym (drop-drop position len file))
        ∙ sym (take-split len (suc remaining) here (omega arith)) in
      elim (Bool-cases (len == 0)) [
        | inl nothing ↦ absurd (ground (arith, nothing))
        | inr more ↦ rw more (
            subst
              (λ b.
                Sent b
                  (with_chunk (take len here) (write_chunks file read fuel (position + len) left)))
              joined (Sent-with_chunk (take len here) _ _ rest))
      ]

  -- For a range within a file of less than 2 ^ 64 bytes, and reads that return at most what is
  -- wanted and there, and something if there is anything: the response is complete, and its
  -- chunks make up the bytes of the range, however the reads split them up.
  pub file_response-Sent :
      (start end : ℕ)
      → length file < u64_mod
      → start ≤ end
      → end < length file
      → Sent (take (end - start + 1) (drop start file)) (file_response file read start end)
  unfolding file_response
  file_response-Sent start end fits ordered inside =
      let count : add_u64 (sub_u64 end start) 1 ≡ end - start + 1 = omega arith in
      rw count (write_chunks-Sent _ start (end - start + 1) (omega arith) (omega arith))

  -- Where no range was asked for, the handler passes 0 and the size less one, which wraps around
  -- for an empty file. For such reads and a file of less than 2 ^ 64 bytes, also an empty one,
  -- the response is complete and its chunks make up the whole file.
  pub file_response-Sent_whole :
      length file < u64_mod → Sent file (file_response file read 0 (sub_u64 (length file) 1))
  unfolding file_response
  file_response-Sent_whole fits =
      let count : add_u64 (sub_u64 (sub_u64 (length file) 1) 0) 1 ≡ length file = omega arith in
      rw count (
        subst (λ b. Sent b (write_chunks file read (length file) 0 (length file)))
          (take-length file) (write_chunks-Sent _ 0 (length file) (omega arith) (omega arith)))
