-- ===== src/Net.antt =====
-- The loops of src/common/net.c that read and write a whole buffer: `conn_readn`, `conn_writen`,
-- `readn`, `writen`, `ssl_readn` and `ssl_writen`.
use tcg_final_project.Prelude.{
  ℕ, zero, suc, ◌+◌, ◌-◌, List, [], ◌++◌, length, drop, Option, none, some, ◌∷◌,
}
pub mod Reading
pub mod Writing
pub mod Delivery
pub mod Sending
pub mod Setup
pub mod Leaks

-- What `SSL_read` and `read` give: bytes, 0, an error that is retried (SSL_ERROR_WANT_READ,
-- SSL_ERROR_WANT_WRITE or EINTR), or another error.
pub data Event : Type 0 where
  got : List ℕ → Event
  ended again failed : Event

-- What `SSL_write` and `write` give: a number of bytes taken, an error that is retried, or another
-- error. For `SSL_write`, 0 is an error.
pub data Written : Type 0 where
  wrote : ℕ → Written
  again failed : Written

-- The value that is returned.
pub data Ret : Type 0 where
  count : ℕ → Ret
  minus_one : Ret

-- A loop's end, with the bytes that the buffer got; or it runs on after its fuel.
pub data Exit : Type 0 where
  returned : Ret → List ℕ → Exit
  running : Exit

-- `connection_t`: over TLS or plain.
pub data Link (T F : Type 0) : Type 0 where
  tls : T → Link T F
  plain : F → Link T F

-- What ends a loop that has `left` of `n` bytes to read, in `conn_readn`, `readn` and `ssl_readn`.
unfoldable pub conn_stop : Event → ℕ → ℕ → Ret
conn_stop _ n left = minus_one

unfoldable pub readn_stop : Event → ℕ → ℕ → Ret
readn_stop Event.ended n left = count (n - left)
readn_stop _ n left = minus_one

unfoldable pub ssl_readn_stop : Event → ℕ → ℕ → Ret
ssl_readn_stop Event.ended n left = count 0
ssl_readn_stop _ n left = minus_one

module _ {S : Type 0} where
  -- What follows one read: `on` is the rest of the loop.
  unfoldable pub on_read :
      (Event → ℕ → ℕ → Ret) → ℕ → Event → (ℕ → List ℕ → Exit × S) → S → ℕ → List ℕ → Exit × S
  on_read stop n (Event.got bytes) on s left buf = on (left - length bytes) (buf ++ bytes)
  on_read stop n Event.again on s left buf = on left buf
  on_read stop n e on s left buf = (returned (stop e n left) buf, s)

  -- The loop: `left` bytes are still to read, `buf` are the ones that were.
  unfoldable pub read_loop :
      (S → ℕ → Event × S) → (Event → ℕ → ℕ → Ret) → ℕ → ℕ → S → ℕ → List ℕ → Exit × S
  read_loop rd stop n fuel s zero buf = (returned (count n) buf, s)
  read_loop rd stop n zero s (suc left) buf = (running, s)
  read_loop rd stop n (suc fuel) s (suc left) buf =
      let (e, s') = rd s (suc left) in
      on_read stop n e (λ l b. read_loop rd stop n fuel s' l b) s' (suc left) buf

  -- What follows one write.
  unfoldable pub on_write : Written → (List ℕ → (Option Ret) × S) → S → List ℕ → (Option Ret) × S
  on_write (Written.wrote k) on s bytes = on (drop k bytes)
  on_write Written.again on s bytes = on bytes
  on_write Written.failed on s bytes = (some minus_one, s)

  -- The loop of a write of `n` bytes, of which `bytes` are left: none if it runs on after its fuel.
  unfoldable pub write_loop : (S → List ℕ → Written × S) → ℕ → ℕ → S → List ℕ → (Option Ret) × S
  write_loop wr n fuel s [] = (some (count n), s)
  write_loop wr n zero s (b ∷ bytes) = (none, s)
  write_loop wr n (suc fuel) s (b ∷ bytes) =
      let (e, s') = wr s (b ∷ bytes) in
      on_write e (λ rest. write_loop wr n fuel s' rest) s' (b ∷ bytes)

  unfoldable pub readn : (S → ℕ → Event × S) → ℕ → S → ℕ → Exit × S
  readn rd fuel s n = read_loop rd readn_stop n fuel s n []

  unfoldable pub ssl_readn : (S → ℕ → Event × S) → ℕ → S → ℕ → Exit × S
  ssl_readn rd fuel s n = read_loop rd ssl_readn_stop n fuel s n []

  unfoldable pub writen : (S → List ℕ → Written × S) → ℕ → S → List ℕ → (Option Ret) × S
  writen wr fuel s bytes = write_loop wr (length bytes) fuel s bytes

  unfoldable pub ssl_writen : (S → List ℕ → Written × S) → ℕ → S → List ℕ → (Option Ret) × S
  ssl_writen wr fuel s bytes = write_loop wr (length bytes) fuel s bytes

module _ {T F : Type 0} where
  -- The null pointer is none.
  unfoldable pub conn_readn :
      (T → ℕ → Event × T)
      → (F → ℕ → Event × F)
      → ℕ
      → Option (Link T F)
      → ℕ
      → Exit × Option (Link T F)
  conn_readn ssl_read read fuel none n = (returned minus_one [], none)
  conn_readn ssl_read read fuel (some (tls t)) n =
      let (e, t') = read_loop ssl_read conn_stop n fuel t n [] in (e, some (tls t'))
  conn_readn ssl_read read fuel (some (plain f)) n =
      let (e, f') = readn read fuel f n in (e, some (plain f'))

  unfoldable pub conn_writen :
      (T → List ℕ → Written × T)
      → (F → List ℕ → Written × F)
      → ℕ
      → Option (Link T F)
      → List ℕ
      → (Option Ret) × Option (Link T F)
  conn_writen ssl_write write fuel none bytes = (some minus_one, none)
  conn_writen ssl_write write fuel (some (tls t)) bytes =
      let (e, t') = write_loop ssl_write (length bytes) fuel t bytes in (e, some (tls t'))
  conn_writen ssl_write write fuel (some (plain f)) bytes =
      let (e, f') = writen write fuel f bytes in (e, some (plain f'))
