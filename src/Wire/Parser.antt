-- ===== src/Wire/Parser.antt =====
-- src/parser/parser_impl.rs: the parser, its reads, and `parse_buf`.
use zewif_zcashd.Base.{
  ℕ, ◌+◌, ◌-◌, ◌^◌, Bool, false, List, Result, M, ok, err, panic, pure, abort, if◌then◌else◌, ltb,
  leb, length, take, drop, Option, none, some, get_elem?, bind,
}
use Prim.Native.Nat.{min}
use zewif_zcashd.Wire.Error.{ParseError, of_kind, unexpected_eof, trailing_data}

abbrev pub Bytes : Type 0
Bytes = List ℕ

-- `usize` is 64 bits wide.
abbrev pub usize_size : ℕ
usize_size = 2 ^ 64

-- No Rust allocation is longer.
abbrev pub isize_max : ℕ
isize_max = 2 ^ 63 - 1

pub record Parser : Type 0 where
  pub buffer : Bytes
  pub offset : ℕ
  pub trace : Bool

abbrev pub P {ℓ} : Type ℓ → Type ℓ
P A = M ParseError Parser A

abbrev pub new : Bytes → Parser
new buffer = record { buffer = buffer; offset = 0; trace = false }

abbrev pub len : Parser → ℕ
len s = length s.buffer

abbrev pub is_empty : Parser → Bool
is_empty s = leb (len s) 0

abbrev pub remaining : Parser → ℕ
remaining s = len s - s.offset

abbrev pub advance : ℕ → Parser → Parser
advance n s = record s { offset = s.offset + n }

unfoldable pub check_finished : P (Unit {0})
check_finished s =
    if ltb s.offset (len s) then err (of_kind (trailing_data (remaining s))) else ok (tt, s)

-- `offset + n` that passes `usize` panics: at the addition in a debug build, and in a release build
-- at the slice, whose end has wrapped to less than its start.
unfoldable pub next : ℕ → P Bytes
next n s =
    if leb usize_size (s.offset + n)
    then panic
    else if ltb (len s) (s.offset + n)
    then err (of_kind (unexpected_eof s.offset n (remaining s)))
    else ok (take n (drop s.offset s.buffer), advance n s)

abbrev pub peek : ℕ → Parser → Bytes
peek n s = take (min n (remaining s)) (drop s.offset s.buffer)

abbrev pub peek_rest : Parser → Bytes
peek_rest s = drop s.offset s.buffer

-- `unwrap`: an error is a panic.
unfoldable pub rest : P Bytes
unfolding next
rest s = elim (next (remaining s) s) [ ok r ↦ ok r | err e ↦ panic | panic ↦ panic ]

abbrev pub set_trace : Bool → Parser → Parser
set_trace trace s = record s { trace = trace }

-- `Read::read` into a buffer of `n` bytes.
unfoldable pub read : ℕ → P Bytes
read n s = let k = min n (remaining s) in ok (take k (drop s.offset s.buffer), advance k s)

-- Out of bounds is a panic.
abbrev pub or_abort {ℓ} : {A : Type ℓ} → Option A → P A
or_abort none = abort
or_abort (some a) = pure a

-- `bytes[i]`
abbrev pub index : ℕ → Bytes → P ℕ
index i bytes = or_abort (get_elem? bytes i)

-- `Parse::parse_buf`: the whole of the buffer has to be read.
unfoldable pub parse_buf {ℓ} : {A : Type ℓ} → P A → Bytes → Bool → Result ParseError A
unfolding check_finished
parse_buf parse buf trace =
    bind (parse (set_trace trace (new buf))) (λ (a, s). bind (check_finished s) (λ _. ok a))
