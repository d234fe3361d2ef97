-- ===== src/Tests/Units/Parts.antt =====
-- The unit tests of src/flow/window.rs, src/stream/recv.rs and src/util/id.rs. A task that waits is
-- polled again when it has been woken; the sleeps of the tests let it wait.
use net_mux.Base.{
  ℕ, zero, suc, Bool, true, false, not, ◌&&◌, Option, none, some, List, [], ◌∷◌, ◌++◌, ◌==◌, ◌≡◌,
  refl,
}
use net_mux.Util.Id.{Role, client, server, StreamIdAllocator, owns, allocate, first_id}
use net_mux.Util.Id
use net_mux.Flow.Window.{
  AcquireOutcome, acquired, pending, outcome_closed, wake, register, SendWindow, undisturbed,
  poll_acquire, recheck, try_take, run, grant, close, new_send, new_recv, on_consume, claim,
  threshold,
}
use net_mux.Stream.Recv.{RecvBuffer, ReadBuf, push, is_empty, read_into, read_loop}
use net_mux.Stream.Recv
use net_mux.Tests.Units.{same_bytes, same_number, all_pass}

-- The tests of the windows.

abbrev takes_some : ℕ → AcquireOutcome → Bool
takes_some n (acquired m) = m == n
takes_some n _ = false

unfoldable send_window_basic : Bool
send_window_basic =
    let first = poll_acquire undisturbed (new_send 100) 30 in
    let second = poll_acquire undisturbed first.0 200 in
    takes_some 30 first.1 && takes_some 70 second.1

-- Whether the last call of the waker was a wake-up.
abbrev woken : SendWindow → Bool
woken w = elim w.waker [ [] ↦ false | c ∷ cs ↦ elim c [ wake ↦ true | register ↦ false ] ]

abbrev waits : AcquireOutcome → Bool
waits pending = true
waits _ = false

abbrev finds_closed : AcquireOutcome → Bool
finds_closed outcome_closed = true
finds_closed _ = false

unfoldable send_window_pending_then_grant : Bool
send_window_pending_then_grant =
    let first = poll_acquire undisturbed (new_send 0) 16 in
    let w = grant first.0 8 in
    waits first.1 && (woken w && takes_some 8 (poll_acquire undisturbed w 16).1)

unfoldable send_window_close_wakes : Bool
send_window_close_wakes =
    let first = poll_acquire undisturbed (new_send 0) 16 in
    let w = close first.0 in
    waits first.1 && (woken w && finds_closed (poll_acquire undisturbed w 16).1)

unfoldable recv_window_threshold : Bool
recv_window_threshold =
    let a = on_consume (new_recv 100) 10 in
    let b = on_consume a.0 10 in
    let c = on_consume b.0 30 in
    let d = on_consume c.0 10 in
    all_pass (
      same_number a.1 none
      ∷ same_number b.1 none
      ∷ same_number c.1 (some 50)
      ∷ same_number d.1 none
      ∷ [])

unfoldable recv_window_zero_bytes_noop : Bool
recv_window_zero_bytes_noop = same_number (on_consume (new_recv 100) 0).1 none

window_tests_lem :
    all_pass (
      send_window_basic ∷ send_window_pending_then_grant ∷ send_window_close_wakes
      ∷ recv_window_threshold ∷ recv_window_zero_bytes_noop ∷ [])
    ≡ true
unfolding send_window_basic send_window_pending_then_grant send_window_close_wakes
    recv_window_threshold recv_window_zero_bytes_noop poll_acquire recheck try_take run grant close
    new_send new_recv on_consume claim threshold
window_tests_lem = refl

-- The tests of the receive buffer.

-- The buffer that is left, and what has been read into a new buffer of `n` bytes.
unfoldable read_n : RecvBuffer → ℕ → RecvBuffer × List ℕ
read_n b n = let r = read_into b (record { filled = []; remaining = n }) in (r.0, r.1.filled)

abbrev hello : List ℕ
hello = 104 ∷ 101 ∷ 108 ∷ 108 ∷ 111 ∷ 32 ∷ []

abbrev world : List ℕ
world = 119 ∷ 111 ∷ 114 ∷ 108 ∷ 100 ∷ []

unfoldable drains_in_order : Bool
unfolding read_n
drains_in_order =
    let r = read_n (push (push Recv.new hello) world) 100 in
    same_bytes r.1 (hello ++ world) && is_empty r.0

unfoldable supports_partial_reads : Bool
unfolding read_n
supports_partial_reads =
    let first = read_n (push Recv.new (97 ∷ 98 ∷ 99 ∷ 100 ∷ 101 ∷ 102 ∷ [])) 3 in
    let second = read_n first.0 100 in
    all_pass (
      same_bytes first.1 (97 ∷ 98 ∷ 99 ∷ [])
      ∷ not (is_empty first.0)
      ∷ same_bytes second.1 (100 ∷ 101 ∷ 102 ∷ [])
      ∷ [])

unfoldable ignores_empty_pushes : Bool
ignores_empty_pushes = is_empty (push Recv.new [])

buffer_tests_lem :
    all_pass (drains_in_order ∷ supports_partial_reads ∷ ignores_empty_pushes ∷ []) ≡ true
unfolding drains_in_order supports_partial_reads ignores_empty_pushes Recv.new push is_empty
    read_into
buffer_tests_lem = refl

-- The tests of the ids.

-- What so many calls of `allocate` return.
abbrev allocations : ℕ → StreamIdAllocator → List (Option ℕ)
allocations zero a = []
allocations (suc n) a = let r = allocate a in r.1 ∷ allocations n r.0

abbrev same_numbers : List (Option ℕ) → List ℕ → Bool
same_numbers [] [] = true
same_numbers (m ∷ ms) (n ∷ ns) = same_number m (some n) && same_numbers ms ns
same_numbers _ _ = false

unfoldable allocates_with_correct_parity : Bool
allocates_with_correct_parity =
    same_numbers (allocations 3 (Id.new client)) (1 ∷ 3 ∷ 5 ∷ [])
    && same_numbers (allocations 2 (Id.new server)) (2 ∷ 4 ∷ [])

unfoldable role_owns_check : Bool
role_owns_check = all_pass (
    owns client 1
    ∷ not (owns client 2)
    ∷ owns server 2
    ∷ not (owns server 0)
    ∷ not (owns server 1)
    ∷ [])

id_tests_lem : all_pass (allocates_with_correct_parity ∷ role_owns_check ∷ []) ≡ true
unfolding allocates_with_correct_parity role_owns_check allocate Id.new first_id owns
id_tests_lem = refl
