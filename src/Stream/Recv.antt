-- ===== src/Stream/Recv.antt =====
-- src/stream/recv.rs. A `Bytes` chunk is the list of its bytes, and `advance n` drops `n` of them.
pub mod Fifo
use net_mux.Base.{
  ℕ, ◌+◌, ◌-◌, min, Bool, true, false, ◌&&◌, List, [], ◌∷◌, ◌++◌, ◌==◌, if◌then◌else◌, length, take,
  drop, is_nil,
}

-- tokio's `ReadBuf`, as far as the crate uses it: what has been put, and the room that is left.
pub record ReadBuf : Type 0 where
  pub filled : List ℕ
  pub remaining : ℕ

abbrev pub put_slice : ReadBuf → List ℕ → ReadBuf
put_slice buf bs = record { filled = buf.filled ++ bs; remaining = buf.remaining - length bs }

pub record RecvBuffer : Type 0 where
  pub queue : List (List ℕ)

unfoldable pub new : RecvBuffer
new = record { queue = [] }

unfoldable pub push : RecvBuffer → List ℕ → RecvBuffer
push b chunk = if is_nil chunk then b else record { queue = b.queue ++ (chunk ∷ []) }

unfoldable all_nil : List (List ℕ) → Bool
all_nil [] = true
all_nil (c ∷ cs) = is_nil c && all_nil cs

unfoldable pub is_empty : RecvBuffer → Bool
unfolding all_nil
is_empty b = all_nil b.queue

-- The loop of `read_into`, with the queue that is left, the buffer and the running total. Where a
-- chunk keeps bytes the buffer is full, and the test of the loop ends it: `Reads-full` of `Fifo`.
unfoldable pub read_loop : List (List ℕ) → ReadBuf → ℕ → List (List ℕ) × ReadBuf × ℕ
read_loop [] buf total = ([], buf, total)
read_loop (front ∷ q) buf total =
    let n = min buf.remaining (length front) in
    let buf' = put_slice buf (take n front) in
    let skipped = read_loop q buf total in
    let popped = read_loop q buf' (total + n) in
    if buf.remaining == 0
    then (front ∷ q, buf, total)
    else if is_nil front
    then skipped
    else if is_nil (drop n front)
    then popped
    else (drop n front ∷ q, buf', total + n)

unfoldable pub read_into : RecvBuffer → ReadBuf → RecvBuffer × ReadBuf × ℕ
unfolding read_loop
read_into b buf = let r = read_loop b.queue buf 0 in (record { queue = r.0 }, r.1, r.2)
