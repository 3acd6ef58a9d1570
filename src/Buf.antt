-- ===== src/Buf.antt =====
-- Byte buffers and buffered sockets (gdp/gdp_buf.h): the calls of libevent behind gdp/gdp_buf.c, as
-- operations with their documented behaviour.
pub mod Bytes
use gdp.Base.{ℕ, ◌≡◌, Option, none, some, List, [], ◌++◌, length, take, drop, ltb, if◌then◌else◌}

-- A buffer and a socket's output, by the calls that the channel makes. `contents` and `output` say
-- what the bytes are; no operation of the channel reads them.
pub record Buffers : Type 1 where
  pub Buf : Type 0
  pub contents : Buf → List ℕ
  pub getlength : Buf → ℕ
  pub getptr : Buf → ℕ → Option (List ℕ)
  pub drain : Buf → ℕ → Buf
  pub Bev : Type 0
  pub output : Bev → List ℕ
  pub write : Bev → List ℕ → Option Bev
  pub write_buffer : Bev → Buf → Option (Bev × Buf)
  pub getlength_lem : (b : Buf) → getlength b ≡ length (contents b)
  pub getptr_lem :
      (b : Buf) (n : ℕ)
      → getptr b n ≡ (if ltb (length (contents b)) n then none else some (take n (contents b)))
  pub drain_lem : (b : Buf) (n : ℕ) → contents (drain b n) ≡ drop n (contents b)
  pub write_lem :
      (v : Bev) (xs : List ℕ) (v' : Bev) → write v xs ≡ some v' → output v' ≡ output v ++ xs
  pub write_buffer_lem :
      (v : Bev) (b : Buf) (v' : Bev) (b' : Buf)
      → write_buffer v b ≡ some (v', b')
      → (output v' ≡ output v ++ contents b) × (contents b' ≡ [])
