-- ===== src/Name.antt =====
-- Names of objects (gdp/gdp_name.c): 32 bytes inside, 43 characters of base 64 to print, and
-- human-oriented names that a directory resolves. A string is the list of its bytes before the NUL.
pub mod RoundTrip
pub mod Lookup
use gdp.Base.{
  ℕ, zero, suc, ◌+◌, ◌*◌, Bool, true, false, not, ◌&&◌, ◌||◌, Option, none, some, List, [], ◌∷◌,
  ◌++◌, if◌then◌else◌, ◌==◌, length, take,
}
use gdp.Stat.{
  EpStat, stat_ok, stat_abort, stat_is_ok, stat_to_int, gdp_name_invalid, name_unknown, mysql_error,
}
use gdp.B64.{codes, enc_url, b64_encode, b64_decode}

-- `GDP_GOB_PNAME_LEN`, and the size of a `gdp_name_t`.
abbrev pub pname_len : ℕ
pname_len = 43

abbrev pub name_size : ℕ
name_size = 32

-- The text that is printed when a name cannot be.
abbrev pub unknown_name : List ℕ
unknown_name = codes "(unknown)"

abbrev pub text_or_unknown : EpStat × Option (List ℕ) → List ℕ
text_or_unknown (estat, none) = unknown_name
text_or_unknown (estat, some txt) = if stat_is_ok estat then txt else unknown_name

-- `gdp_printable_name`
unfoldable pub printable_name : List ℕ → List ℕ
printable_name internal = text_or_unknown (b64_encode internal (pname_len + 1) enc_url)

-- A status, and the name where one was written.
abbrev pub Result : Type 0
Result = EpStat × Option (List ℕ)

-- `gdp_internal_name`
unfoldable pub internal_name : List ℕ → Result
internal_name external =
    let r =
      if not (length external == pname_len)
      then (gdp_name_invalid, none)
      else b64_decode (take pname_len external) name_size enc_url in
    if not (stat_is_ok (r.0))
    then r
    else if not (stat_to_int (r.0) == name_size)
    then (stat_abort, r.1)
    else r

-- The 32-bit words of a name, on a little-endian machine.
unfoldable pub some_word : ℕ → List ℕ → Bool
some_word (suc n) (a ∷ b ∷ c ∷ d ∷ up) =
    if not (a + 256 * (b + 256 * (c + 256 * d)) == 0) then true else some_word n up
some_word n up = false

-- `gdp_name_is_valid`
unfoldable pub name_is_valid : List ℕ → Bool
name_is_valid name = some_word 8 name

-- What the directory's database answers.
pub data Answer : Type 0 where
  failed no_row : Answer
  row : List ℕ → Answer

-- What name resolution rests on: the name root, the database's connection, the setting that old names
-- are still hashed, and the hash function.
pub record Directory : Type 0 where
  pub root : Option (List ℕ)
  pub query : Option (List ℕ → Answer)
  pub compat : Bool
  pub sha256 : List ℕ → List ℕ

-- `gdp_name_resolve`
abbrev pub resolved : Answer → Result
resolved failed = (mysql_error, none)
resolved no_row = (name_unknown, none)
resolved (row r) = if length r == name_size then (stat_ok, some r) else (name_unknown, none)

unfoldable pub name_resolve : Directory → List ℕ → Result
name_resolve dir hname = elim dir.query [
  | none ↦ (name_unknown, none)
  | some q ↦ resolved (q hname)
]

abbrev pub has_dot : List ℕ → Bool
has_dot [] = false
has_dot (c ∷ cs) = (c == b'.') || has_dot cs

pub record Parsed : Type 0 where
  pub stat : EpStat
  pub gname : Option (List ℕ)
  pub xname : Option (List ℕ)

-- `goto done` when a try succeeded; the extended name is only kept then.
abbrev pub done_or : Result → Option (List ℕ) → Parsed → Parsed
done_or r xname next =
    if stat_is_ok (r.0) then record { stat = r.0; gname = r.1; xname = xname } else next

abbrev pub hashed_name : Option (List ℕ) → List ℕ → List ℕ
hashed_name none hname = hname
hashed_name (some x) hname = if has_dot hname then hname else x

-- The last resort, with the status of the tries before.
abbrev pub fall_back : Directory → List ℕ → Option (List ℕ) → EpStat → Parsed
fall_back dir hname xname estat =
    if dir.compat
    then (let x = hashed_name xname hname in
        record { stat = stat_ok; gname = some (dir.sha256 x); xname = some x })
    else record { stat = estat; gname = none; xname = none }

-- The tries with the name root.
abbrev pub try_root : Directory → List ℕ → EpStat → Parsed
try_root dir hname estat = elim dir.root [
  | none ↦ fall_back dir hname none estat
  | some root ↦
      let xname = root ++ (b'.' ∷ hname) in
      let first = name_resolve dir xname in
      let second = name_resolve dir hname in
      done_or first (some xname) (
        if has_dot hname
        then fall_back dir hname (some xname) (first.0)
        else done_or second (some xname) (fall_back dir hname (some xname) (second.0)))
]

abbrev pub is_none : Option (List ℕ) → Bool
is_none none = true
is_none (some x) = false

abbrev pub try_plain : Directory → List ℕ → EpStat → Parsed
try_plain dir hname estat =
    let r = name_resolve dir hname in
    if has_dot hname || is_none dir.root
    then done_or r none (try_root dir hname (r.0))
    else try_root dir hname estat

-- `gdp_name_parse`
unfoldable pub name_parse : Directory → List ℕ → Parsed
name_parse dir hname =
    let r = internal_name hname in
    if length hname == pname_len
    then done_or r none (try_plain dir hname (r.0))
    else try_plain dir hname name_unknown
