-- ===== src/Stat/Acknak.antt =====
-- Statuses and the codes of answers: `get_default_estat` with its table (gdp/gdp_proto.c), and
-- `_gdp_acknak_from_estat` (gdp/gdp_main.c).
use gdp.Base.{
  ℕ, ◌+◌, ◌-◌, ◌≡◌, refl, Bool, not, ◌&&◌, ◌||◌, Option, none, some, List, [], ◌∷◌, if◌then◌else◌,
  ◌==◌, leb, ltb,
}
use mathlib.Core.List.{map}
use gdp.Stat.{
  EpStat, gdp_stat, sev_ok, sev_warn, sev_error, sev_severe, stat_severity, stat_registry,
  stat_module, stat_detail, stat_is_ok, not_implemented,
}

abbrev pub ack_success_code : ℕ
ack_success_code = 128

abbrev pub nak_c_unauth : ℕ
nak_c_unauth = 193

abbrev pub nak_s_internal : ℕ
nak_s_internal = 224

-- `EP_STAT_ISFAIL`
abbrev pub stat_is_fail : EpStat → Bool
stat_is_fail c = leb sev_error (stat_severity c)

-- The statuses of `DispatchTable` for the answers that it has, by code.
abbrev pub answer_stats : List (ℕ × EpStat)
answer_stats =
    (128, gdp_stat sev_ok 200)
    ∷ (129, gdp_stat sev_ok 201)
    ∷ (130, gdp_stat sev_ok 202)
    ∷ (131, gdp_stat sev_ok 203)
    ∷ (132, gdp_stat sev_ok 204)
    ∷ (133, gdp_stat sev_ok 205)
    ∷ (191, gdp_stat sev_warn 263)
    ∷ (192, gdp_stat sev_error 400)
    ∷ (193, gdp_stat sev_error 401)
    ∷ (194, gdp_stat sev_error 402)
    ∷ (195, gdp_stat sev_error 403)
    ∷ (196, gdp_stat sev_error 404)
    ∷ (197, gdp_stat sev_error 405)
    ∷ (198, gdp_stat sev_error 406)
    ∷ (201, gdp_stat sev_error 409)
    ∷ (202, gdp_stat sev_warn 410)
    ∷ (204, gdp_stat sev_error 412)
    ∷ (205, gdp_stat sev_error 413)
    ∷ (207, gdp_stat sev_error 415)
    ∷ (222, gdp_stat sev_warn 430)
    ∷ (223, gdp_stat sev_warn 431)
    ∷ (224, gdp_stat sev_severe 500)
    ∷ (225, gdp_stat sev_severe 501)
    ∷ (226, gdp_stat sev_severe 502)
    ∷ (227, gdp_stat sev_severe 503)
    ∷ (228, gdp_stat sev_severe 504)
    ∷ (229, gdp_stat sev_severe 505)
    ∷ (238, gdp_stat sev_warn 430)
    ∷ (239, gdp_stat sev_warn 515)
    ∷ (240, gdp_stat sev_error 600)
    ∷ []

unfoldable pub entry_of : List (ℕ × EpStat) → (cmd : ℕ) → EpStat
entry_of [] cmd = not_implemented
entry_of ((code, estat) ∷ rest) cmd =
    let later = entry_of rest cmd in if code == cmd then estat else later

-- `get_default_estat` of an answer, a code from 128 on.
unfoldable pub get_default_estat : (cmd : ℕ) → EpStat
get_default_estat cmd = entry_of answer_stats cmd

-- What a status without its own code gives: `def`, or a general code.
unfoldable pub general_code : EpStat → (def : ℕ) → ℕ
general_code estat def =
    if stat_is_ok estat
    then (if ltb def 128 || ltb 191 def then ack_success_code else def)
    else if (stat_registry estat == 0x100) && (stat_module estat == 1)
    then nak_c_unauth
    else if ltb def 192 || ltb 254 def
    then nak_s_internal
    else def

-- The code in the detail of a status, where it has one.
unfoldable pub detail_code : EpStat → Option ℕ
detail_code estat =
    let d = stat_detail estat in
    if not (stat_is_fail estat)
    then (if leb 200 d && leb d 263 then some ((d - 200) + 128) else none)
    else if leb 400 d && leb d 431
    then some ((d - 400) + 192)
    else if leb 500 d && leb d 515
    then some ((d - 500) + 224)
    else if leb 600 d && leb d 614
    then some ((d - 600) + 240)
    else none

-- `_gdp_acknak_from_estat`
unfoldable pub acknak_from_estat : EpStat → (def : ℕ) → ℕ
acknak_from_estat estat def =
    if (stat_registry estat == 0x103) && (stat_module estat == 1)
    then (elim (detail_code estat) [ none ↦ general_code estat def | some code ↦ code ])
    else general_code estat def

-- The codes of answers whose status is an error, or not one of failure.
abbrev pub plain_codes : List ℕ
plain_codes =
    128 ∷ 129 ∷ 130 ∷ 131 ∷ 132 ∷ 133 ∷ 191 ∷ 192 ∷ 193 ∷ 194 ∷ 195 ∷ 196 ∷ 197 ∷ 198 ∷ 201 ∷ 204
    ∷ 205 ∷ 207 ∷ 224 ∷ 225 ∷ 226 ∷ 227 ∷ 228 ∷ 229 ∷ 240 ∷ []

-- The codes of answers of failure whose status is a warning.
abbrev pub warning_codes : List ℕ
warning_codes = 202 ∷ 222 ∷ 223 ∷ 238 ∷ 239 ∷ []

-- Whatever the code for a status without its own is, an answer that is turned into its status and back keeps
-- its code, unless it is a failure whose status is a warning; such an answer becomes that code where that is
-- one of failure, and otherwise the one for an internal error.
pub acknak_from_estat-get_default_estat :
    (def : ℕ)
    → (map (λ code. acknak_from_estat (get_default_estat code) def) plain_codes ≡ plain_codes)
      × (map (λ code. acknak_from_estat (get_default_estat code) def) warning_codes
          ≡ map (λ code. if ltb def 192 || ltb 254 def then nak_s_internal else def) warning_codes)
unfolding acknak_from_estat get_default_estat entry_of general_code detail_code
acknak_from_estat-get_default_estat def = (refl, refl)
