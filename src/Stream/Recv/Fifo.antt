-- ===== src/Stream/Recv/Fifo.antt =====
-- RecvBuffer of src/stream/recv.rs is a first-in first-out queue of bytes.
use net_mux.Base.{
  ℕ, ◌+◌, ◌-◌, ◌≤◌, ◌≡◌, refl, sym, ap, ◌∙◌, min, true, List, [], ◌∷◌, ◌++◌, append-nil,
  append_assoc, arith, length, take, drop, concat, length-append, length-take, take-append_le,
  drop-append_le, take-append_ge, drop-append_ge, take-nil, drop-nil, ◌↔◌, Bool-cases, ==_iff, ◌==◌,
  inl, inr, dec_le, take_all, drop_all, is_nil-drop_short,
}
use net_mux.Stream.Recv.{
  ReadBuf, put_slice, RecvBuffer, push, all_nil, is_empty, read_loop, read_into,
}

-- The bytes that wait, in the order of their arrival.
abbrev pub contents : RecvBuffer → List ℕ
contents b = concat b.queue

concat-append : (xs ys : List (List ℕ)) → concat (xs ++ ys) ≡ concat xs ++ concat ys
concat-append [] ys = refl
concat-append (x ∷ xs) ys = rw (concat-append xs ys, append_assoc)

-- A chunk that arrives goes behind everything that waits.
pub contents-push :
    (b : RecvBuffer) (chunk : List ℕ) → contents (push b chunk) ≡ contents b ++ chunk
unfolding push
contents-push b [] = sym (append-nil _)
contents-push b (x ∷ xs) = rw (concat-append b.queue ((x ∷ xs) ∷ []), append-nil (x ∷ xs))

all_nil_iff : (cs : List (List ℕ)) → (all_nil cs ≡ true) ↔ (concat cs ≡ [])
unfolding all_nil
all_nil_iff [] = (λ e. refl, λ e. refl)
all_nil_iff ([] ∷ cs) = all_nil_iff cs
all_nil_iff ((x ∷ xs) ∷ cs) = (λ e. cc, λ e. cc)

-- `is_empty` tells exactly when no byte waits.
pub is_empty_iff : (b : RecvBuffer) → (is_empty b ≡ true) ↔ (contents b ≡ [])
unfolding is_empty
is_empty_iff b = all_nil_iff b.queue

-- What `read_into` has to do with `bytes` waiting.
record Reads (bytes : List ℕ) (buf : ReadBuf) (total : ℕ) (r : List (List ℕ) × ReadBuf × ℕ)
    : Type 0 where
  rest : concat r.0 ≡ drop buf.remaining bytes
  put : r.1.filled ≡ buf.filled ++ take buf.remaining bytes
  room : r.1.remaining ≡ buf.remaining - length bytes
  count : r.2 ≡ total + min buf.remaining (length bytes)

-- The front chunk is used up, and the loop goes on behind it.
Reads-popped :
    (front bytes : List ℕ) (buf : ReadBuf) (total : ℕ) (r : List (List ℕ) × ReadBuf × ℕ)
    → length front ≤ buf.remaining
    → Reads bytes (put_slice buf front) (total + length front) r
    → Reads (front ++ bytes) buf total r
Reads-popped front bytes buf total r h v = record {
  rest = v.rest ∙ sym (drop-append_ge buf.remaining front bytes h);
  put =
      v.put
      ∙ append_assoc buf.filled front _
      ∙ ap (λ l. buf.filled ++ l) (sym (take-append_ge buf.remaining front bytes h));
  room = omega (arith, v.room, length-append front bytes);
  count = omega (arith, v.count, length-append front bytes);
}

-- The front chunk keeps bytes, and the buffer is full: the test of the loop ends it.
Reads-full :
    (front bytes : List ℕ) (q : List (List ℕ)) (buf : ReadBuf) (total : ℕ)
    → concat q ≡ bytes
    → buf.remaining ≤ length front
    → Reads (front ++ bytes) buf total (
      drop buf.remaining front ∷ q,
      put_slice buf (take buf.remaining front),
      total + buf.remaining,
    )
Reads-full front bytes q buf total e h = record {
  rest = rw e (sym (drop-append_le buf.remaining front bytes h));
  put = ap (λ l. buf.filled ++ l) (sym (take-append_le buf.remaining front bytes h));
  room = omega (arith, length-append front bytes, length-take buf.remaining front);
  count = omega (arith, length-append front bytes);
}

Reads-stop :
    (q : List (List ℕ)) (buf : ReadBuf) (total : ℕ)
    → buf.remaining ≡ 0
    → Reads (concat q) buf total (q, buf, total)
Reads-stop q buf total e = record {
  rest = rw e;
  put = rw e (sym (append-nil buf.filled));
  room = omega arith;
  count = omega arith;
}

read_loop-Reads :
    (q : List (List ℕ)) (buf : ReadBuf) (total : ℕ)
    → Reads (concat q) buf total (read_loop q buf total)
unfolding read_loop
read_loop-Reads [] buf total = record {
  rest = sym (drop-nil buf.remaining);
  put = rw (take-nil buf.remaining) (sym (append-nil buf.filled));
  room = omega arith;
  count = omega arith;
}
read_loop-Reads ([] ∷ q) buf total = elim (Bool-cases (buf.remaining == 0)) [
  | inl full ↦ rw full (Reads-stop ([] ∷ q) buf total ((==_iff _ _).0 full))
  | inr room ↦ rw room (read_loop-Reads q buf total)
]
read_loop-Reads ((x ∷ xs) ∷ q) buf total = elim (Bool-cases (buf.remaining == 0)) [
  | inl full ↦ rw full (Reads-stop ((x ∷ xs) ∷ q) buf total ((==_iff _ _).0 full))
  | inr room ↦ elim (dec_le (length (x ∷ xs)) buf.remaining) [
    | yes all ↦
        let e : min buf.remaining (length (x ∷ xs)) ≡ length (x ∷ xs) = omega arith in
        rw (room, e, drop_all (length xs) xs (omega arith), take_all (length xs) xs (omega arith))
          (Reads-popped (x ∷ xs) (concat q) buf total _ all
            (read_loop-Reads q (put_slice buf (x ∷ xs)) (total + length (x ∷ xs))))
    | no part ↦
        let e : min buf.remaining (length (x ∷ xs)) ≡ buf.remaining = omega arith in
        rw (room, e, is_nil-drop_short buf.remaining (x ∷ xs) (omega arith))
          (Reads-full (x ∷ xs) (concat q) q buf total refl (omega arith))
  ]
]

-- `read_into` moves as many of the waiting bytes as there is room for, in order, behind what the
-- buffer holds already, keeps the others, and returns how many it has moved.
pub read_into_lem :
    (b : RecvBuffer) (buf : ReadBuf)
    → let r = read_into b buf in
      (contents r.0 ≡ drop buf.remaining (contents b))
      × (r.1.filled ≡ buf.filled ++ take buf.remaining (contents b))
      × (r.1.remaining ≡ buf.remaining - length (contents b))
      × (r.2 ≡ min buf.remaining (length (contents b)))
unfolding read_into
read_into_lem b buf =
    let v = read_loop-Reads b.queue buf 0 in (v.rest, v.put, v.room, omega (arith, v.count))
