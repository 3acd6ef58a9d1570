-- ===== src/Wire.antt =====
-- Integers in network byte order: the macros PUT8 to PUT64 and GET8 to GET32 of gdp/gdp_priv.h. A
-- writer appends its bytes; a reader takes them from the front, and `none` is a read past the end.
pub mod RoundTrip
pub mod Sizes
pub mod Unique
use gdp.Base.{ℕ, ◌+◌, ◌*◌, ◌/◌, ◌^◌, Option, none, some, List, [], ◌∷◌, bit_and, bit_or}

pub put8 : ℕ → List ℕ
put8 v = bit_and v 0xff ∷ []

pub put16 : ℕ → List ℕ
put16 v = bit_and (v / 2 ^ 8) 0xff ∷ bit_and v 0xff ∷ []

pub put32 : ℕ → List ℕ
put32 v =
    bit_and (v / 2 ^ 24) 0xff
    ∷ bit_and (v / 2 ^ 16) 0xff
    ∷ bit_and (v / 2 ^ 8) 0xff
    ∷ bit_and v 0xff
    ∷ []

pub put64 : ℕ → List ℕ
put64 v =
    bit_and (v / 2 ^ 56) 0xff
    ∷ bit_and (v / 2 ^ 48) 0xff
    ∷ bit_and (v / 2 ^ 40) 0xff
    ∷ bit_and (v / 2 ^ 32) 0xff
    ∷ bit_and (v / 2 ^ 24) 0xff
    ∷ bit_and (v / 2 ^ 16) 0xff
    ∷ bit_and (v / 2 ^ 8) 0xff
    ∷ bit_and v 0xff
    ∷ []

pub get8 : List ℕ → Option (ℕ × List ℕ)
get8 [] = none
get8 (a ∷ r) = some (a, r)

unfoldable pub get16 : List ℕ → Option (ℕ × List ℕ)
get16 [] = none
get16 (a ∷ []) = none
get16 (a ∷ b ∷ r) = some (bit_or (a * 2 ^ 8) b, r)

unfoldable pub get32 : List ℕ → Option (ℕ × List ℕ)
get32 [] = none
get32 (a ∷ []) = none
get32 (a ∷ b ∷ []) = none
get32 (a ∷ b ∷ c ∷ []) = none
get32 (a ∷ b ∷ c ∷ d ∷ r) =
    some (bit_or (bit_or (bit_or (a * 2 ^ 24) (b * 2 ^ 16)) (c * 2 ^ 8)) d, r)
