-- ===== src/Tests/Names.antt =====
-- A name of 32 bytes, and a directory with a name root.
use gdp.Base.{
  ℕ, ◌≡◌, refl, arith, false, some, List, [], ◌∷◌, ◌++◌, length, All, replicate, if◌then◌else◌,
  ◌==◌,
}
use gdp.Wire.RoundTrip.{IsByte}
use gdp.Stat.{stat_ok, stat_is_ok, stat_from_int}
use gdp.B64.{codes}
use gdp.Name.{printable_name, internal_name, Directory, Answer, no_row, row, name_resolve}
use gdp.Name.RoundTrip.{internal_name-printable_name}

abbrev a_name : List ℕ
a_name = replicate 31 250 ++ (3 ∷ [])

a_name-IsByte : All IsByte a_name
a_name-IsByte = omega arith

internal_name-printable_name_example :
    (length (printable_name a_name) ≡ 43)
    × (internal_name (printable_name a_name) ≡ (stat_from_int 32, some a_name))
internal_name-printable_name_example = internal_name-printable_name a_name refl a_name-IsByte

abbrev x_name : List ℕ
x_name = codes "x"

-- A database that knows the plain name `x`.
abbrev knows_x : List ℕ → Answer
knows_x h = if length h == 1 then row a_name else no_row

abbrev dir : Directory
dir = record { root = some (codes "r"); query = some knows_x; compat = false; sha256 = λ x. x }

extended_missed : stat_is_ok (name_resolve dir (codes "r.x")).0 ≡ false
unfolding name_resolve
extended_missed = refl

plain_found : name_resolve dir x_name ≡ (stat_ok, some a_name)
unfolding name_resolve
plain_found = refl
