-- ===== src/Buf/Bytes.antt =====
-- Buffers that are lists of bytes, on which every call succeeds.
use gdp.Base.{
  ℕ, ◌≡◌, refl, Option, none, some, List, [], ◌++◌, length, take, drop, ltb, if◌then◌else◌,
}
use gdp.Buf.{Buffers}

pub written : (v xs v' : List ℕ) → some (v ++ xs) ≡ some v' → v' ≡ v ++ xs
written v xs v' e = cc

pub moved :
    (v b v' b' : List ℕ)
    → ◌≡◌ {A = Option (List ℕ × List ℕ)} (some (v ++ b, [])) (some (v', b'))
    → (v' ≡ v ++ b) × (b' ≡ [])
moved v b v' b' e = (cc, cc)

abbrev pub byte_buffers : Buffers
byte_buffers = record {
  Buf = List ℕ;
  contents = λ b. b;
  getlength = length;
  getptr = λ b n. if ltb (length b) n then none else some (take n b);
  drain = λ b n. drop n b;
  Bev = List ℕ;
  output = λ v. v;
  write = λ v xs. some (v ++ xs);
  write_buffer = λ v b. some (v ++ b, []);
  getlength_lem = λ b. refl;
  getptr_lem = λ b n. refl;
  drain_lem = λ b n. refl;
  write_lem = written;
  write_buffer_lem = moved;
}
