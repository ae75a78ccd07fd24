-- ===== src/Wire/Error.antt =====
-- src/parser/error.rs: what went wrong, and the stack of context frames.
use zewif_zcashd.Base.{ℕ, ℤ, String, List, [], ◌∷◌, ◌++◌, M, map_err}

-- A violation of the SEC1 layout of a DER private key.
pub data DerPrivKeyError : Type 0 where
  expected_sequence truncated_length truncated_long_form_length : DerPrivKeyError
  length_overflow end_overflow truncated_body : DerPrivKeyError
  expected_version expected_scalar scalar_offset_overflow truncated_scalar : DerPrivKeyError

-- The causes that the crate itself detects. `external` stands for the wrapped errors of other
-- crates (`Io`, `Zewif`, `UfvkDecode`, `UfvkInterpret`), told apart by a number.
pub data ParseErrorKind : Type 0 where
  unexpected_eof : (offset needed remaining : ℕ) → ParseErrorKind
  trailing_data : (remaining : ℕ) → ParseErrorKind
  invalid_bool : ℕ → ParseErrorKind
  invalid_utf8 : ParseErrorKind
  string_length_overflow : ParseErrorKind
  non_canonical_compact_size : (prefix value : ℕ) → ParseErrorKind
  invalid_optional_discriminant : ℕ → ParseErrorKind
  invalid_length : (expected actual : ℕ) → ParseErrorKind
  invalid_amount : ℤ → ParseErrorKind
  invalid_orchard_ivk : ParseErrorKind
  invalid_pub_key_length : ℕ → ParseErrorKind
  invalid_priv_key_length : ℕ → ParseErrorKind
  der_priv_key : DerPrivKeyError → ParseErrorKind
  key_pair_mismatch : ParseErrorKind
  u252_overflow : ParseErrorKind
  invalid_receiver_type_value : ℕ → ParseErrorKind
  invalid_receiver_type_name : List ℕ → ParseErrorKind
  unrecognized_network : List ℕ → ParseErrorKind
  external : ℕ → ParseErrorKind

-- A context frame: a fixed text, or the arguments of a formatted one.
pub data Frame : Type 0 where
  text : String → Frame
  array_item : (index last : ℕ) → Frame
  for_keyname : String → List ℕ → Frame

pub record ParseError : Type 0 where
  pub kind : ParseErrorKind
  pub frames : List Frame

-- `From<K> for ParseError`
abbrev pub of_kind : ParseErrorKind → ParseError
of_kind k = record { kind = k; frames = [] }

-- `ParseError::with_frame`: frames are pushed, innermost first.
abbrev pub push_frame : Frame → ParseError → ParseError
push_frame f e = record e { frames = e.frames ++ (f ∷ []) }

-- `ParseResultExt::with_frame`, on an action.
abbrev pub with_frame {ℓ} : {S : Type 0} {A : Type ℓ} → Frame → M ParseError S A → M ParseError S A
with_frame f m s = map_err (push_frame f) (m s)
