-- ===== src/Wire/Local.antt =====
-- Parsers whose value depends on the bytes that they consume, and on nothing else.
use zewif_zcashd.Base.{
  ℕ, ◌+◌, ◌≤◌, ◌≡◌, sym, ap, ◌∙◌, subst, [], ◌++◌, ok, pure, raise, abort, ◌>>=◌, length, take,
  arith, append_assoc, drop-drop, length-drop, length-take, take-append-drop, bind-eq-ok,
  map_err-eq-ok, Option, none, some, if◌then◌else◌, Bool, true, false,
}
use zewif_zcashd.Wire.Error.{Frame, push_frame, with_frame, ParseError}
use zewif_zcashd.Wire.Parser.{Bytes, Parser, P, advance, next, peek_rest, or_abort}
use zewif_zcashd.Wire.Reads.{
  IsValid, Reads, Reads-pure, Reads-bind, Reads-with_frame, Reads-next, advance-zero,
  advance-append, advance-IsValid,
}

-- A success from `s` took `bytes` off the front of the input: it moved the position behind them and
-- changed nothing else, and wherever the same bytes come next the same value is read.
pub record Taken {ℓ} {A : Type ℓ} (parse : P A) (s : Parser) (a : A) (s' : Parser) : Type ℓ where
  pub bytes : Bytes
  pub split : peek_rest s ≡ bytes ++ peek_rest s'
  pub moved : s' ≡ advance (length bytes) s
  pub again : Reads parse bytes a

pub record IsLocal {ℓ} {A : Type ℓ} (parse : P A) : Type ℓ where
  pub taken : (s s' : Parser) (a : A) → IsValid s → parse s ≡ ok (a, s') → Taken parse s a s'

pub Taken-IsValid {ℓ} :
    {A : Type ℓ} {parse : P A} {s s' : Parser} {a : A} → IsValid s → Taken parse s a s' → IsValid s'
Taken-IsValid {s = s} {s' = s'} v t =
    subst IsValid (sym t.moved) (advance-IsValid s t.bytes (peek_rest s') v t.split)

pub IsLocal-pure {ℓ} : {A : Type ℓ} (a : A) → IsLocal (pure a)
IsLocal-pure a = record {
  taken = λ s s' b v e. record {
    bytes = [];
    split = cc;
    moved = cc (advance-zero s);
    again = let same : a ≡ b = cc in subst (λ x. Reads (pure a) [] x) same (Reads-pure a);
  };
}

pub IsLocal-raise {ℓ} : {A : Type ℓ} (x : ParseError) → IsLocal (raise {A = A} x)
IsLocal-raise x = record { taken = λ s s' b v e. absurd (cc) }

pub IsLocal-abort {ℓ} : {A : Type ℓ} → IsLocal (abort {A = A})
IsLocal-abort = record { taken = λ s s' b v e. absurd (cc) }

pub IsLocal-or_abort {ℓ} : {A : Type ℓ} (o : Option A) → IsLocal (or_abort o)
IsLocal-or_abort none = IsLocal-abort
IsLocal-or_abort (some a) = IsLocal-pure a

pub IsLocal-bind {ℓ κ} :
    {A : Type ℓ} {B : Type κ} {p : P A} (f : A → P B)
    → IsLocal p
    → ((a : A) → IsLocal (f a))
    → IsLocal (p >>= f)
IsLocal-bind {p = p} f hp hf = record {
  taken = λ s s'' b v e.
      let ((a, s'), e₁, e₂) = bind-eq-ok (p s) _ e in
      let t = hp.taken s s' a v e₁ in
      let u = (hf a).taken s' s'' b (Taken-IsValid v t) e₂ in
      record {
        bytes = t.bytes ++ u.bytes;
        split = t.split ∙ ap (λ x. t.bytes ++ x) u.split ∙ sym (append_assoc t.bytes u.bytes _);
        moved = u.moved ∙ ap (advance (length u.bytes)) t.moved ∙ advance-append t.bytes u.bytes s;
        again = Reads-bind f t.again u.again;
      };
}

pub IsLocal-with_frame {ℓ} :
    {A : Type ℓ} (frame : Frame) {p : P A} → IsLocal p → IsLocal (with_frame frame p)
IsLocal-with_frame frame {p = p} h = record {
  taken = λ s s' a v e.
      let t = h.taken s s' a v (map_err-eq-ok (push_frame frame) (p s) e) in
      record {
        bytes = t.bytes;
        split = t.split;
        moved = t.moved;
        again = Reads-with_frame frame t.again;
      };
}

pub IsLocal-if {ℓ} :
    {A : Type ℓ} (b : Bool) {p q : P A} → IsLocal p → IsLocal q → IsLocal (if b then p else q)
IsLocal-if true hp hq = hp
IsLocal-if false hp hq = hq

-- A read that succeeds fits the buffer, returns that many bytes and moves behind them.
pub next-eq-ok :
    (n : ℕ) (s s' : Parser) (a : Bytes)
    → next n s ≡ ok (a, s')
    → (s.offset + n ≤ length s.buffer) × (a ≡ take n (peek_rest s)) × (s' ≡ advance n s)
unfolding next
next-eq-ok n s s' a e = ground arith

-- The bytes that a read returns stood first in the input.
pub next-split :
    (n : ℕ) (s s' : Parser) (a : Bytes)
    → next n s ≡ ok (a, s')
    → (peek_rest s ≡ a ++ peek_rest s') × (length a ≡ n)
next-split n s s' a e =
    let (fits, ha, hs) = next-eq-ok n s s' a e in
    (
      rw (hs, ha, drop-drop s.offset n s.buffer, take-append-drop n (peek_rest s)),
      omega (arith, ap length ha, length-take n (peek_rest s), length-drop s.offset s.buffer),
    )

pub IsLocal-next : (n : ℕ) → IsLocal (next n)
IsLocal-next n = record {
  taken = λ s s' a v e.
      let (split, size) = next-split n s s' a e in
      record {
        bytes = a;
        split = split;
        moved = rw (← size) at ((next-eq-ok n s s' a e).2);
        again = subst (λ k. Reads (next k) a a) size (Reads-next a);
      };
}

-- The rules by which `search` follows a parser's body.
pub ruleset local = (
  IsLocal-pure, IsLocal-raise, IsLocal-abort, IsLocal-or_abort, IsLocal-bind, IsLocal-with_frame,
  IsLocal-if, IsLocal-next,
)
