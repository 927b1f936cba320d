-- ===== src/StaticFiles/FileWriter.antt =====
-- static-files-module/src/file_writer.rs: `file_response` sends the bytes `start` to `end` of a
-- file. The file is given by its bytes, and a read by the number of bytes that it returns.
pub mod Complete
use pandora_web_server.Base.{
  ℕ, zero, suc, ◌+◌, ◌-◌, ◌*◌, min, Bool, Bytes, List, [], ◌∷◌, ◌++◌, take, drop, add_u64, sub_u64,
  ◌==◌, if◌then◌else◌,
}

abbrev pub buffer_size : ℕ
buffer_size = 64 * 1024

-- How a response ends, with the body chunks that were written. `None` behind them, the end of the
-- body, is written exactly if the response is complete.
pub data Response : Type 0 where
  complete : List Bytes → Response
  -- `ReadError`: the file ended before the range did
  cut_off : List Bytes → Response
  -- not an outcome of the program: the fuel of the model ran out
  stuck : Response

abbrev pub with_chunk : Bytes → Response → Response
with_chunk chunk (complete chunks) = complete (chunk ∷ chunks)
with_chunk chunk (cut_off chunks) = cut_off (chunk ∷ chunks)
with_chunk chunk stuck = stuck

-- `read position wanted` is the result of `file.read` with a buffer of `wanted` bytes.
module _ (file : Bytes) (read : ℕ → ℕ → ℕ) where
  unfoldable pub write_chunks : ℕ → ℕ → ℕ → Response
  write_chunks fuel position zero = complete []
  write_chunks zero position (suc remaining) = stuck
  write_chunks (suc fuel) position (suc remaining) =
      let len = read position (min (suc remaining) buffer_size) in
      let more =
        with_chunk (take len (drop position file))
          (write_chunks fuel (position + len) (suc remaining - len)) in
      if len == 0 then cut_off [] else more

  -- Each round sends a byte at least, so the bytes to send are fuel enough.
  unfoldable pub file_response : ℕ → ℕ → Response
  unfolding write_chunks
  file_response start end =
      let remaining = add_u64 (sub_u64 end start) 1 in write_chunks remaining start remaining
