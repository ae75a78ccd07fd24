-- ===== src/Wire/Buffer.antt =====
-- `parse_buf`: the whole buffer is read, or it is refused; and what makes a read panic.
use zewif_zcashd.Base.{
  ℕ, zero, suc, ◌+◌, ◌-◌, ◌≤◌, ◌<◌, ◌≡◌, refl, sym, ap, ◌∙◌, subst, Bool, List, [], ◌∷◌, ◌++◌, ok,
  err, panic, length, take, drop, arith, append-nil, length-append, bind-eq-ok,
}
use zewif_zcashd.Wire.Error.{of_kind, trailing_data, unexpected_eof}
use zewif_zcashd.Wire.Parser.{
  Bytes, Parser, P, new, set_trace, check_finished, parse_buf, peek_rest, advance, next, usize_size,
}
use zewif_zcashd.Wire.Reads.{Reads, IsValid}
use zewif_zcashd.Wire.Local.{IsLocal}

abbrev start : Bytes → Bool → Parser
start buf trace = set_trace trace (new buf)

start-IsValid : (buf : Bytes) (trace : Bool) → length buf < usize_size → IsValid (start buf trace)
start-IsValid buf trace h = omega arith

module _ {ℓ} {A : Type ℓ} {p : P A} {bs : Bytes} {a : A} (h : Reads p bs a) (trace : Bool) where
  -- A buffer that holds an encoding and nothing else gives its value.
  pub parse_buf-Reads : length bs < usize_size → parse_buf p bs trace ≡ ok a
  unfolding parse_buf
  parse_buf-Reads short =
      rw (h.run (start bs trace) [] (start-IsValid bs trace short) (sym (append-nil bs)))
        (ground arith)

  -- Where a parser reads some bytes, parse_buf on these bytes and at least one more, which together
  -- fit a usize, returns TrailingData with the number of the further bytes.
  pub parse_buf-trailing :
      (x : ℕ) (more : Bytes)
      → length (bs ++ x ∷ more) < usize_size
      → parse_buf p (bs ++ x ∷ more) trace ≡ err (of_kind (trailing_data (length (x ∷ more))))
  unfolding parse_buf
  parse_buf-trailing x more short =
      rw (h.run (start (bs ++ x ∷ more) trace) (x ∷ more) (start-IsValid _ trace short) refl)
        (ground (arith, length-append bs (x ∷ more)))

check_finished-eq-ok : (s s' : Parser) → check_finished s ≡ ok (tt, s') → length s.buffer ≤ s.offset
unfolding check_finished
check_finished-eq-ok s s' e = ground arith

drop-all {ℓ} : {A : Type ℓ} (n : ℕ) (xs : List A) → length xs ≤ n → drop n xs ≡ []
drop-all zero [] h = refl
drop-all (suc n) [] h = refl
drop-all zero (x ∷ xs) h = absurd (omega arith)
drop-all (suc n) (x ∷ xs) h = drop-all n xs (omega arith)

-- What parse_buf returns for a buffer, by a parser whose value depends only on the bytes it takes,
-- was read off the whole of the buffer: wherever the same bytes come next, the parser reads the
-- same value off exactly them.
pub parse_buf-whole {ℓ} :
    {A : Type ℓ} {p : P A} (buf : Bytes) (trace : Bool) (a : A)
    → IsLocal p
    → length buf < usize_size
    → parse_buf p buf trace ≡ ok a
    → Reads p buf a
unfolding parse_buf
parse_buf-whole {p = p} buf trace a local short e =
    let ((b, s), e₁, e₂) = bind-eq-ok (p (start buf trace)) _ e in
    let ((u, s'), e₃, e₄) = bind-eq-ok (check_finished s) _ e₂ in
    let same : b ≡ a = cc in
    let t = local.taken (start buf trace) s b (start-IsValid buf trace short) e₁ in
    let kept : s.buffer ≡ buf = ap (λ x. x.buffer) t.moved in
    let over : peek_rest s ≡ [] = drop-all s.offset s.buffer (check_finished-eq-ok s s' e₃) in
    let whole : buf ≡ t.bytes = t.split ∙ ap (λ x. t.bytes ++ x) over ∙ append-nil t.bytes in
    subst (λ x. Reads p x a) (sym whole) (subst (λ x. Reads p t.bytes x) same t.again)

-- From a valid position next panics where the position and the length asked for pass a usize,
-- returns UnexpectedEof where they pass the buffer and fit a usize, and otherwise returns the bytes
-- asked for and stands behind them.
pub next_outcome :
    (n : ℕ) (s : Parser)
    → IsValid s
    → (usize_size ≤ s.offset + n → next n s ≡ panic)
      × (length s.buffer < s.offset + n
          → s.offset + n < usize_size
          → next n s ≡ err (of_kind (unexpected_eof s.offset n (length s.buffer - s.offset))))
      × (s.offset + n ≤ length s.buffer → next n s ≡ ok (take n (peek_rest s), advance n s))
unfolding next
next_outcome n s v = (λ h. ground arith, λ h k. ground arith, λ h. ground arith)
