-- ===== src/Wire/Reads.antt =====
-- What it means for a parser to read some bytes off its input, and rules that compose such facts.
use zewif_zcashd.Base.{
  ℕ, ◌+◌, ◌≤◌, ◌<◌, ◌≡◌, sym, ap, ◌∙◌, [], ◌++◌, ok, pure, ◌>>=◌, length, take, drop, arith,
  append_assoc, append-nil, length-append, drop-append, drop-drop, take-append, length-drop,
}
use native.Mathlib.Nat.{add-zero, add_assoc}
use zewif_zcashd.Wire.Error.{Frame, with_frame}
use zewif_zcashd.Wire.Parser.{Bytes, Parser, P, advance, next, usize_size, peek_rest}

-- The position is inside the buffer, and the buffer's length is a `usize`.
abbrev pub IsValid : Parser → Type 0
IsValid s = (s.offset ≤ length s.buffer) × (length s.buffer < usize_size)

-- With `bytes` next in the input, `parse` returns `a` and stands behind them.
pub record Reads {ℓ} {A : Type ℓ} (parse : P A) (bytes : Bytes) (a : A) : Type ℓ where
  pub run :
      (s : Parser) (more : Bytes)
      → IsValid s
      → peek_rest s ≡ bytes ++ more
      → parse s ≡ ok (a, advance (length bytes) s)

-- Behind what was read the parser is valid, and its input is what was left.
pub advance-IsValid :
    (s : Parser) (bytes more : Bytes)
    → IsValid s
    → peek_rest s ≡ bytes ++ more
    → IsValid (advance (length bytes) s)
advance-IsValid s bytes more v e =
    omega (arith, ap length e, length-append bytes more, length-drop s.offset s.buffer)

pub advance-peek :
    (s : Parser) (bytes more : Bytes)
    → peek_rest s ≡ bytes ++ more
    → peek_rest (advance (length bytes) s) ≡ more
advance-peek s bytes more e =
    drop-drop s.offset (length bytes) s.buffer ∙ ap (drop (length bytes)) e ∙ drop-append bytes more

pub advance-zero : (s : Parser) → advance 0 s ≡ s
advance-zero s = ap (λ n. record s { offset = n }) (add-zero s.offset)

pub advance-advance : (m n : ℕ) (s : Parser) → advance n (advance m s) ≡ advance (m + n) s
advance-advance m n s = ap (λ k. record s { offset = k }) (add_assoc s.offset m n)

pub advance-append :
    (bs cs : Bytes) (s : Parser)
    → advance (length cs) (advance (length bs) s) ≡ advance (length (bs ++ cs)) s
advance-append bs cs s = rw (length-append bs cs) (advance-advance (length bs) (length cs) s)

pub Reads-pure {ℓ} : {A : Type ℓ} (a : A) → Reads (pure a) [] a
Reads-pure a = record { run = λ s more v e. ap (λ t. ok (a, t)) (sym (advance-zero s)) }

pub Reads-bind {ℓ κ} :
    {A : Type ℓ} {B : Type κ} {p : P A} (f : A → P B) {bs cs : Bytes} {a : A} {b : B}
    → Reads p bs a
    → Reads (f a) cs b
    → Reads (p >>= f) (bs ++ cs) b
Reads-bind f {bs = bs} {cs = cs} {b = b} hp hf = record {
  run = λ s more v e.
      let e' : peek_rest s ≡ bs ++ (cs ++ more) = e ∙ append_assoc bs cs more in
      rw (hp.run s (cs ++ more) v e') (
        hf.run (advance (length bs) s) more (advance-IsValid s bs (cs ++ more) v e')
          (advance-peek s bs (cs ++ more) e')
        ∙ ap (λ t. ok (b, t)) (advance-append bs cs s));
}

-- A last step that reads nothing.
pub Reads-map {ℓ κ} :
    {A : Type ℓ} {B : Type κ} {p : P A} (f : A → P B) {bs : Bytes} {a : A} {b : B}
    → Reads p bs a
    → Reads (f a) [] b
    → Reads (p >>= f) bs b
Reads-map {p = p} f {bs = bs} {b = b} hp hf =
    rw (append-nil bs) at (Reads-bind {p = p} f {bs = bs} {cs = []} {b = b} hp hf)

pub Reads-with_frame {ℓ} :
    {A : Type ℓ} (frame : Frame) {p : P A} {bs : Bytes} {a : A}
    → Reads p bs a
    → Reads (with_frame frame p) bs a
Reads-with_frame frame h = record { run = λ s more v e. rw (h.run s more v e) }

pub Reads-next : (bytes : Bytes) → Reads (next (length bytes)) bytes bytes
unfolding next
Reads-next bytes = record {
  run = λ s more v e.
      ground (
        arith,
        advance-IsValid s bytes more v e,
        ap (take (length bytes)) e,
        take-append bytes more,
      );
}
