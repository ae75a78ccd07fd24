-- ===== src/Wire/Collections/Outcome.antt =====
-- What `Data` does with any declared length.
use zewif_zcashd.Base.{
  ℕ, ◌^◌, refl, ◌+◌, ◌-◌, ◌≤◌, ◌<◌, ◌≡◌, ◌∙◌, ap, ◌⊎◌, inl, inr, ◌++◌, ok, err, panic, length, take,
  arith, tests, ltb, Bool-cases, length-drop,
}
use zewif_zcashd.Wire.Error.{of_kind, unexpected_eof, push_frame, text, with_frame}
use zewif_zcashd.Wire.Parser.{Bytes, Parser, peek_rest, advance, next, usize_size}
use zewif_zcashd.Wire.Reads.{Reads-with_frame, IsValid, advance-IsValid, advance-peek}
use zewif_zcashd.Wire.CompactSize.Canonical.{compact_size_bytes, Reads-parse_compact_size}
use zewif_zcashd.Wire.Buffer.{next_outcome}
use zewif_zcashd.Wire.Collections.{compact_size, data_bytes}

module _ (n : ℕ) (s : Parser) (more : Bytes) (v : IsValid s)
    (e : peek_rest s ≡ compact_size_bytes n ++ more) where
  -- The parser behind the length.
  abbrev pub behind_length : Parser
  behind_length = advance (length (compact_size_bytes n)) s

  data_bytes-next : n < 2 ^ 64 → data_bytes s ≡ with_frame (text "Data") (next n) behind_length
  unfolding data_bytes compact_size
  data_bytes-next small =
      rw ((Reads-with_frame (text "Data length") (Reads-parse_compact_size n small)).run s more v e)
        refl

  -- At a valid position before the shortest form of a length below 2 ^ 64, Data either returns that
  -- many bytes and stands behind them, if so many follow; or, if fewer follow, returns
  -- UnexpectedEof with the position behind the length, the length and the number of bytes left; or
  -- panics, where the position behind the length and the length pass a usize.
  pub data_bytes-outcome :
      n < 2 ^ 64
      → ((n ≤ length more) × (data_bytes s ≡ ok (take n more, advance n behind_length)))
        ⊎ (((length more < n)
              × (behind_length.offset + n < usize_size)
              × (data_bytes s
                  ≡ err (
                      push_frame
                        (text "Data")
                        (of_kind (unexpected_eof behind_length.offset n (length more))))))
            ⊎ ((usize_size ≤ behind_length.offset + n) × (data_bytes s ≡ panic)))
  data_bytes-outcome small =
      let t = behind_length in
      let here = advance-IsValid s (compact_size_bytes n) more v e in
      let left : peek_rest t ≡ more = advance-peek s (compact_size_bytes n) more e in
      let size : length t.buffer ≡ t.offset + length more =
        omega (arith, ap length left, length-drop t.offset t.buffer) in
      let rest_size : length t.buffer - t.offset ≡ length more = omega arith in
      let (overflows, ends, enough) = next_outcome n t here in
      elim (Bool-cases (ltb (length more) n)) [
        | inr fits ↦ inl (omega tests, data_bytes-next small ∙ rw (enough (omega tests), left) refl)
        | inl long ↦ elim (Bool-cases (ltb (t.offset + n) usize_size)) [
          | inl under ↦ inr (
              inl (
                omega tests,
                omega tests,
                data_bytes-next small ∙ rw (ends (omega tests) (omega tests), rest_size) refl,
              ))
          | inr over ↦
              inr (inr (omega tests, data_bytes-next small ∙ rw (overflows (omega tests)) refl))
        ]
      ]
