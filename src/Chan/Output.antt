-- ===== src/Chan/Output.antt =====
-- What a send puts on the socket.
use gdp.Base.{
  ℕ, ◌≤◌, ◌≡◌, refl, arith, ap, sym, ◌∙◌, true, false, Option, none, some, List, [], ◌++◌, ltb,
  length, append_assoc, append-nil, nil_of_length, Bool-cases, Option-cases, inl, inr,
}
use gdp.Stat.{stat_is_ok}
use gdp.Buf.{Buffers}
use gdp.Chan.Send.{build_header, Sent, payload_length, write_payload, write_rest, send_helper}

module _ (B : Buffers) where
  abbrev pub payload_bytes : Option B.Buf → List ℕ
  payload_bytes none = []
  payload_bytes (some p) = B.contents p

  payload_length_lem : (p : Option B.Buf) → payload_length B p ≡ length (payload_bytes p)
  payload_length_lem none = refl
  payload_length_lem (some p) = B.getlength_lem p

  write_rest-output :
      (v : B.Bev) (p : Option B.Buf)
      → stat_is_ok ((write_rest B v p).stat) ≡ true
      → (v' : B.Bev) × ((write_rest B v p).bev ≡ some v')
        × (B.output v' ≡ B.output v ++ payload_bytes p)
  unfolding write_rest write_payload
  write_rest-output v none ok = (v, refl, sym (append-nil (B.output v)))
  write_rest-output v (some p) ok = elim (Bool-cases (ltb 0 (B.getlength p))) [
    | inr z ↦
        let empty : B.contents p ≡ [] =
          nil_of_length (B.contents p) (ground (arith, z, B.getlength_lem p)) in
        (v, rw z refl, rw empty (sym (append-nil (B.output v))))
    | inl n ↦ elim (Option-cases (B.write_buffer v p)) [
      | inl e ↦
          let bad : stat_is_ok ((write_rest B v (some p)).stat) ≡ false = rw (n, e) refl in
          absurd (cc (ok, bad))
      | inr (r, e) ↦ (r.0, rw (n, e) refl, (B.write_buffer_lem v p (r.0) (r.1) e).0)
    ]
  ]

  -- A send that returns OK put on the socket the header for its payload, and the payload after it; the
  -- payload was of at most 65535 bytes.
  pub send_helper-output :
      (v : B.Bev) (src dst : List ℕ) (p : Option B.Buf) (tos : ℕ)
      → stat_is_ok ((send_helper B (some v) src dst p tos).stat) ≡ true
      → (v' : B.Bev) × ((send_helper B (some v) src dst p tos).bev ≡ some v')
        × (length (payload_bytes p) ≤ 65535)
        × (B.output v'
            ≡ B.output v
              ++ (build_header src dst (length (payload_bytes p)) tos ++ payload_bytes p))
  unfolding send_helper
  send_helper-output v src dst p tos ok =
      let hdr = build_header src dst (payload_length B p) tos in
      elim (Bool-cases (ltb 65535 (payload_length B p))) [
        | inl l ↦
            let bad : stat_is_ok ((send_helper B (some v) src dst p tos).stat) ≡ false =
              rw l refl in
            absurd (cc (ok, bad))
        | inr l ↦ elim (Option-cases (B.write v hdr)) [
          | inl e ↦
              let bad : stat_is_ok ((send_helper B (some v) src dst p tos).stat) ≡ false =
                rw (l, e) refl in
              absurd (cc (ok, bad))
          | inr (v₁, e) ↦
              let same : send_helper B (some v) src dst p tos ≡ write_rest B v₁ p =
                rw (l, e) refl in
              let rest_ok : stat_is_ok ((write_rest B v₁ p).stat) ≡ true =
                ap (λ (s : Sent B). stat_is_ok s.stat) (sym same) ∙ ok in
              let (v₂, at, out) = write_rest-output v₁ p rest_ok in
              let first : B.output v₁ ≡ B.output v ++ hdr = B.write_lem v hdr v₁ e in
              let short : length (payload_bytes p) ≤ 65535 =
                rw (sym (payload_length_lem p)) (ground (arith, l)) in
              (
                v₂,
                ap (λ (s : Sent B). s.bev) same ∙ at,
                short,
                rw (sym (payload_length_lem p)) (
                    out
                    ∙ ap (λ (x : List ℕ). x ++ payload_bytes p) first
                    ∙ append_assoc (B.output v) hdr (payload_bytes p)),
              )
        ]
      ]
