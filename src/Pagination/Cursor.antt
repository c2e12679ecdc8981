-- ===== src/Pagination/Cursor.antt =====
-- `encode_cursor`, `decode_cursor` and `build_cursor_meta` (src/common/pagination.py). A text is the
-- list of its code points; the texts of UUIDs, times and integers and the UTF-8 codec, which the
-- language's library writes and reads, are parameters.
pub mod RoundTrip
use munavvar_a.Prelude.{
  ℕ, zero, suc, ◌+◌, ◌-◌, ◌%◌, Bool, true, false, ◌&&◌, ◌||◌, ◌==◌, ltb, Option, none, some, List,
  [], ◌∷◌, ◌++◌, length, same_text, if◌then◌else◌,
}
use mathlib.Core.Option
use munavvar_a.Prelude.Int.{ℤ, pos}
use munavvar_a.Pagination.Base64.{b64encode, b64decode, rstrip_pad, pads}

pub record Formats : Type 0 where
  pub uuid_text : ℕ → List ℕ
  pub parse_uuid : List ℕ → Option ℕ
  pub time_text : ℕ → List ℕ
  pub parse_time : List ℕ → Option ℕ
  pub int_text : ℤ → List ℕ
  pub parse_int : List ℕ → Option ℤ
  pub encode_utf8 : List ℕ → List ℕ
  pub decode_utf8 : List ℕ → Option (List ℕ)

-- `SortValue`; a Boolean is an `int` to the language.
pub data SortValue : Type 0 where
  time : ℕ → SortValue
  flag : Bool → SortValue
  num : ℤ → SortValue
  text : List ℕ → SortValue

abbrev pub bar : ℕ
bar = b'|'

-- The texts "v1", "dt", "i" and "s".
abbrev pub version_1 : List ℕ
version_1 = b'v' ∷ b'1' ∷ []

abbrev pub kind_time : List ℕ
kind_time = b'd' ∷ b't' ∷ []

abbrev pub kind_int : List ℕ
kind_int = b'i' ∷ []

abbrev pub kind_text : List ℕ
kind_text = b's' ∷ []

abbrev pub int_of_bool : Bool → ℕ
int_of_bool true = 1
int_of_bool false = 0

-- The piece before the first bar, and what stands after the bar.
unfoldable pub break_bar : List ℕ → List ℕ × Option (List ℕ)
break_bar [] = ([], none)
break_bar (c ∷ cs) =
    let (piece, rest) = break_bar cs in if c == bar then ([], some cs) else (c ∷ piece, rest)

abbrev pub with_rest : List ℕ → Option (List ℕ) → (List ℕ → List (List ℕ)) → List (List ℕ)
with_rest piece none more = piece ∷ []
with_rest piece (some rest) more = piece ∷ more rest

-- `raw.split("|", maxsplit)`
unfoldable pub split_bar : ℕ → List ℕ → List (List ℕ)
split_bar zero cs = cs ∷ []
split_bar (suc n) cs = with_rest (break_bar cs).0 (break_bar cs).1 (split_bar n)

module _ (formats : Formats) where
  open formats use {
    uuid_text, parse_uuid, time_text, parse_time, int_text, parse_int, encode_utf8, decode_utf8,
  }

  -- The branches of `encode_cursor`: the kind and the text of the value.
  unfoldable pub kind_and_text : SortValue → List ℕ × List ℕ
  kind_and_text (SortValue.time t) = (kind_time, time_text t)
  kind_and_text (SortValue.flag b) = (kind_int, int_text (pos (int_of_bool b)))
  kind_and_text (SortValue.num n) = (kind_int, int_text n)
  kind_and_text (SortValue.text s) = (kind_text, s)

  -- f"v1|{kind}|{row_id}|{sv}"
  unfoldable pub cursor_payload : SortValue → ℕ → List ℕ
  cursor_payload value row_id =
      let (kind, sv) = kind_and_text value in
      version_1 ++ (bar ∷ (kind ++ (bar ∷ (uuid_text row_id ++ (bar ∷ sv)))))

  -- `encode_cursor`
  unfoldable pub encode_cursor : SortValue → ℕ → List ℕ
  encode_cursor value row_id = rstrip_pad (b64encode (encode_utf8 (cursor_payload value row_id)))

  -- The value by its kind; none where the code raises.
  unfoldable pub parse_value : List ℕ → List ℕ → Option SortValue
  parse_value kind sv =
      if same_text kind kind_time
      then Option.map SortValue.time (parse_time sv)
      else if same_text kind kind_int
      then Option.map SortValue.num (parse_int sv)
      else if same_text kind kind_text
      then some (SortValue.text sv)
      else none

  -- The four parts of the payload.
  unfoldable pub parse_parts : List (List ℕ) → Option (SortValue × ℕ)
  parse_parts (version ∷ kind ∷ raw_id ∷ sv ∷ []) =
      if same_text version version_1
      then elim (parse_uuid raw_id) [
        | none ↦ none
        | some row_id ↦ Option.map (λ v. (v, row_id)) (parse_value kind sv)
      ]
      else none
  parse_parts _ = none

  -- `decode_cursor`; none is `CursorInvalidError`.
  unfoldable pub decode_cursor : List ℕ → Option (SortValue × ℕ)
  decode_cursor token = elim (b64decode (token ++ pads ((4 - length token % 4) % 4))) [
    | none ↦ none
    | some bytes ↦ elim (decode_utf8 bytes) [
      | none ↦ none
      | some raw ↦ parse_parts (split_bar 3 raw)
    ]
  ]
