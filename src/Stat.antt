-- ===== src/Stat.antt =====
-- Status codes (ep/ep_stat.h, ep/ep_statcodes.h, gdp/gdp_stat.h): a 32-bit word of a severity, a
-- registry, a module and a detail. An EP_STAT is its code.
pub mod Fields
pub mod Acknak
use gdp.Base.{ℕ, ◌+◌, ◌-◌, ◌*◌, ◌/◌, ◌%◌, ◌^◌, Bool, bit_and, bit_or, ◌==◌}

abbrev pub EpStat : Type 0
EpStat = ℕ

-- The severities that the macros name.
abbrev pub sev_ok : ℕ
sev_ok = 0

abbrev pub sev_warn : ℕ
sev_warn = 4

abbrev pub sev_error : ℕ
sev_error = 5

abbrev pub sev_severe : ℕ
sev_severe = 6

abbrev pub sev_abort : ℕ
sev_abort = 7

-- `EP_STAT_NEW(s, r, m, d)`: each part is masked to its width and shifted to its place.
abbrev pub stat_new : ℕ → ℕ → ℕ → ℕ → EpStat
stat_new s r m d =
    bit_or
      (bit_or
        (bit_or (bit_and s (2 ^ 3 - 1) * 2 ^ 29 % 2 ^ 32)
          (bit_and r (2 ^ 11 - 1) * 2 ^ 18 % 2 ^ 32))
        (bit_and m (2 ^ 8 - 1) * 2 ^ 10 % 2 ^ 32))
      (bit_and d (2 ^ 10 - 1))

abbrev pub stat_severity : EpStat → ℕ
stat_severity c = bit_and (c / 2 ^ 29) (2 ^ 3 - 1)

abbrev pub stat_registry : EpStat → ℕ
stat_registry c = bit_and (c / 2 ^ 18) (2 ^ 11 - 1)

abbrev pub stat_module : EpStat → ℕ
stat_module c = bit_and (c / 2 ^ 10) (2 ^ 8 - 1)

abbrev pub stat_detail : EpStat → ℕ
stat_detail c = bit_and c (2 ^ 10 - 1)

abbrev pub stat_is_ok : EpStat → Bool
stat_is_ok c = stat_severity c == sev_ok

-- `EP_STAT_FROM_INT` and `EP_STAT_TO_INT`.
abbrev pub stat_from_int : ℕ → EpStat
stat_from_int i = i % 2 ^ 32

abbrev pub stat_to_int : EpStat → ℕ
stat_to_int c = c

-- `_EP_STAT_INTERNAL(sev, EP_STAT_MOD_GENERIC, code)`
abbrev pub ep_stat : ℕ → ℕ → EpStat
ep_stat sev code = stat_new sev 0x100 0 code

abbrev pub stat_ok : EpStat
stat_ok = stat_new sev_ok 0 0 0

abbrev pub stat_error : EpStat
stat_error = ep_stat sev_error 0

abbrev pub stat_abort : EpStat
stat_abort = ep_stat sev_abort 0

-- `GDP_STAT_NEW(sev, det)`
abbrev pub gdp_stat : ℕ → ℕ → EpStat
gdp_stat sev det = stat_new sev 0x103 1 det

abbrev pub not_implemented : EpStat
not_implemented = gdp_stat sev_severe 4

abbrev pub pdu_write_fail : EpStat
pdu_write_fail = gdp_stat sev_error 5

abbrev pub pdu_version_mismatch : EpStat
pdu_version_mismatch = gdp_stat sev_severe 7

abbrev pub keep_reading : EpStat
keep_reading = gdp_stat sev_warn 9

abbrev pub gdp_name_invalid : EpStat
gdp_name_invalid = gdp_stat sev_error 14

abbrev pub dead_daemon : EpStat
dead_daemon = gdp_stat sev_abort 20

abbrev pub readonly : EpStat
readonly = gdp_stat sev_error 22

abbrev pub notfound : EpStat
notfound = gdp_stat sev_error 23

abbrev pub pdu_corrupt : EpStat
pdu_corrupt = gdp_stat sev_abort 24

abbrev pub pdu_too_long : EpStat
pdu_too_long = gdp_stat sev_severe 38

abbrev pub name_unknown : EpStat
name_unknown = gdp_stat sev_error 43

-- `GDP_STAT_NAK_NOROUTE`
abbrev pub nak_noroute : EpStat
nak_noroute = gdp_stat sev_error 600

abbrev pub mysql_error : EpStat
mysql_error = gdp_stat sev_severe 44
