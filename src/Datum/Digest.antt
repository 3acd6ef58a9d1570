-- ===== src/Datum/Digest.antt =====
-- The digest of a datum, its hash, and its signature (gdp/gdp_datum.c, _gdp_gob_init_vrfy_ctx of
-- gdp/gdp_gob_ops.c), over the operations of ep/ep_crypto.h, which are a parameter.
use gdp.Base.{
  ℕ, ◌≡◌, Bool, true, not, Option, none, some, List, [], ◌++◌, if◌then◌else◌, ltb, length, drop,
  get_or,
}
use gdp.Hash.{same_key}
use gdp.Wire.{put32, put64}
use gdp.Stat.{EpStat, stat_ok, gdp_stat, sev_error, stat_is_ok}
use gdp.Datum.{Datum}

abbrev pub skey_required : EpStat
skey_required = gdp_stat sev_error 25

abbrev pub crypto_vrfy_fail : EpStat
crypto_vrfy_fail = gdp_stat sev_error 28

abbrev pub crypto_no_pub_key : EpStat
crypto_no_pub_key = gdp_stat sev_error 46

abbrev pub crypto_no_sig : EpStat
crypto_no_sig = gdp_stat sev_error 47

-- A message digest with its key, which is empty where there is none, and the bytes put into it.
pub record MdCtx : Type 0 where
  pub alg : ℕ
  pub key : List ℕ
  pub bytes : List ℕ

abbrev pub md_update : MdCtx → List ℕ → MdCtx
md_update md bytes = record md { bytes = md.bytes ++ bytes }

-- The calls of ep/ep_crypto.h. What a secret key signs, the public key of its pair verifies.
pub record Crypto : Type 1 where
  pub hash : (alg : ℕ) → List ℕ → List ℕ
  pub sign_final : MdCtx → EpStat × List ℕ
  pub vrfy_final : MdCtx → (sig : List ℕ) → EpStat
  pub key_read_mem : List ℕ → Bool
  pub IsPair : (skey pkey : List ℕ) → Type 0
  pub verifies :
      (alg : ℕ) (skey pkey bytes sig : List ℕ)
      → IsPair skey pkey
      → sign_final (record { alg = alg; key = skey; bytes = bytes }) ≡ (stat_ok, sig)
      → vrfy_final (record { alg = alg; key = pkey; bytes = bytes }) sig ≡ stat_ok

-- What of `struct gdp_gob` signatures need: `pubkey` is what its metadata has for the public key, and
-- `metadata` is the metadata as it is serialized.
pub record SignGob : Type 0 where
  pub name : List ℕ
  pub pubkey : Option (List ℕ)
  pub metadata : List ℕ
  pub hashalg : ℕ
  pub sign_ctx : Option MdCtx
  pub vrfy_ctx : Option MdCtx
  pub verifying : Bool
  pub vrfy_warn : Bool

abbrev pub bytes_of : Option (List ℕ) → List ℕ
bytes_of none = []
bytes_of (some bytes) = bytes

module _ (c : Crypto) where
  -- The bytes that a datum adds to a digest.
  unfoldable pub datum_bytes : (alg : ℕ) → Datum → List ℕ
  datum_bytes alg datum =
      put64 datum.recno
      ++ (put64 datum.ts.tv_sec
          ++ (put32 datum.ts.tv_nsec
              ++ (put32 datum.ts.tv_accuracy
                  ++ (bytes_of datum.prevhash ++ c.hash alg (bytes_of datum.dbuf)))))

  -- `_gdp_datum_digest`
  abbrev pub datum_digest : Datum → MdCtx → MdCtx
  datum_digest datum md = md_update md (datum_bytes md.alg datum)

  -- `_gdp_gob_init_vrfy_ctx`
  unfoldable pub init_vrfy_ctx : SignGob → EpStat × SignGob
  init_vrfy_ctx gob =
      let head = gob.name ++ gob.metadata in
      let plain : EpStat × SignGob = (
        crypto_no_pub_key,
        record gob { vrfy_ctx = some (record { alg = gob.hashalg; key = []; bytes = head }) },
      ) in
      elim gob.pubkey [
        | none ↦ plain
        | some pk ↦
            if ltb (length pk) 5
            then plain
            else if c.key_read_mem (drop 4 pk)
            then (
              stat_ok,
              record gob {
                vrfy_ctx = some (record { alg = get_or pk 0 0; key = drop 4 pk; bytes = head });
                verifying = true;
              },
            )
            else (
              crypto_no_pub_key,
              record gob {
                vrfy_ctx = some (record { alg = get_or pk 0 0; key = []; bytes = head });
              },
            )
      ]

  -- `_gdp_gob_init_vrfy_ctx` where there is no context yet, and its status, or success.
  unfoldable pub with_vrfy_ctx : SignGob → EpStat × SignGob
  with_vrfy_ctx gob = elim gob.vrfy_ctx [ none ↦ init_vrfy_ctx gob | some md ↦ (stat_ok, gob) ]

  -- `_gdp_datum_hash`: the hash, and the object, which may have a context then.
  unfoldable pub datum_hash : Datum → SignGob → List ℕ × SignGob
  datum_hash datum gob =
      let gob1 = (with_vrfy_ctx gob).1 in
      elim gob1.vrfy_ctx [
        | none ↦ ([], gob1)
        | some md ↦ (c.hash md.alg (datum_digest datum md).bytes, gob1)
      ]

  -- `_gdp_datum_hash_equal`
  unfoldable pub datum_hash_equal : Datum → SignGob → List ℕ → Bool
  datum_hash_equal datum gob hash = same_key hash (datum_hash datum gob).0

  -- `_gdp_datum_sign`
  unfoldable pub datum_sign : Datum → SignGob → EpStat × Datum
  datum_sign datum gob = elim gob.sign_ctx [
    | none ↦ (skey_required, datum)
    | some ctx ↦
        let (estat, sig) = c.sign_final (datum_digest datum ctx) in
        (estat, if stat_is_ok estat then record datum { sig = some sig } else datum)
  ]

  -- The end of `_gdp_datum_vrfy_gob`, where a verification failed.
  abbrev pub vrfy_failed : SignGob → EpStat → EpStat
  vrfy_failed gob estat = if gob.vrfy_warn then stat_ok else estat

  -- `_gdp_datum_vrfy_gob` after the context is there, with the status of that; `none` is a read of the
  -- signature through a null pointer.
  unfoldable pub vrfy_with : Datum → EpStat → SignGob → Option EpStat
  vrfy_with datum estat gob =
      if not (stat_is_ok estat)
      then some (vrfy_failed gob estat)
      else if not gob.verifying
      then some stat_ok
      else elim gob.vrfy_ctx [
        | none ↦ none
        | some md ↦ elim datum.sig [
          | none ↦ none
          | some sig ↦
              let vstat = c.vrfy_final (datum_digest datum md) sig in
              some (if not (stat_is_ok vstat) then vrfy_failed gob vstat else vstat)
        ]
      ]

  -- `_gdp_datum_vrfy_gob`
  unfoldable pub datum_vrfy_gob : Datum → SignGob → Option EpStat × SignGob
  datum_vrfy_gob datum gob =
      let (estat, gob1) = with_vrfy_ctx gob in (vrfy_with datum estat gob1, gob1)
