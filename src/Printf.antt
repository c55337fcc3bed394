-- ===== src/Printf.antt =====
-- The formatting engine of libc/printf.c. A string is the list of its bytes, without the NUL; an
-- argument of a variadic call is a word or a string. The buffer is a function from the index.

pub mod Digits
pub mod Bounds
pub mod Total
mod Tests
use nova_kernel.Prelude.{
  ℕ, zero, suc, ◌+◌, ◌-◌, ◌*◌, ◌/◌, ◌%◌, Bool, true, false, not, ◌&&◌, ◌||◌, ltb, leb, ◌==◌,
  if◌then◌else◌, update, List, [], ◌∷◌, ◌++◌, length, replicate, take, Option, none, some,
}
use nova_kernel.Prelude.Words.{u32_mod, sub32}

-- A buffer with the index at which `putc_into` goes on.
pub record Output : Type 0 where
  pub idx : ℕ
  pub buf : ℕ → ℕ

unfoldable pub putc_into : ℕ → ℕ → Output → Output
putc_into size c o = if size == 0 then o else record {
  idx = o.idx + 1;
  buf = if ltb (o.idx + 1) size then update o.buf o.idx c else o.buf;
}

unfoldable pub putpad : ℕ → ℕ → ℕ → Output → Output
putpad size c zero o = o
putpad size c (suc count) o = putpad size c count (putc_into size c o)

-- tmp[0], …, tmp[len - 1], one after the other
unfoldable pub put_all : ℕ → List ℕ → Output → Output
put_all size [] o = o
put_all size (c ∷ cs) o = put_all size cs (putc_into size c o)

-- dig[n]
abbrev pub digit : Bool → ℕ → ℕ
digit upper n = if ltb n 10 then b'0' + n else (if upper then b'A' else b'a') + (n - 10)

-- The digits as the loop finds them, the last first. A word has 32 digits at most.
unfoldable pub digits_rev : ℕ → ℕ → Bool → ℕ → List ℕ
digits_rev zero base upper v = []
digits_rev (suc fuel) base upper v =
    let rest = digits_rev fuel base upper (v / base) in
    if v == 0 then [] else digit upper (v % base) ∷ rest

unfoldable pub reverse_onto : List ℕ → List ℕ → List ℕ
reverse_onto [] out = out
reverse_onto (c ∷ cs) out = reverse_onto cs (c ∷ out)

unfoldable pub u32_to_str : ℕ → ℕ → Bool → List ℕ
u32_to_str v base upper = if v == 0 then b'0' ∷ [] else reverse_onto (digits_rev 32 base upper v) []

pub data Arg : Type 0 where
  word : ℕ → Arg
  text : List ℕ → Arg
  null : Arg

-- What stands between the percent sign and the character of the conversion, and what follows.
pub record Flags : Type 0 where
  pub left : Bool
  pub zeros : Bool
  pub rest : List ℕ

unfoldable pub read_flags : Bool → Bool → List ℕ → Flags
read_flags left zeros [] = record { left = left; zeros = zeros; rest = [] }
read_flags left zeros (c ∷ cs) =
    let minus = read_flags true zeros cs in
    let zero_flag = read_flags left true cs in
    if c == b'-'
    then minus
    else if c == b'0'
    then zero_flag
    else record { left = left; zeros = zeros; rest = c ∷ cs }

-- width = width * 10 + (*fmt - '0'), for as long as there are digits. The number is exact; where it
-- does not fit an `int`, `format_loop` has no defined result.
unfoldable pub read_number : ℕ → List ℕ → ℕ × List ℕ
read_number n [] = (n, [])
read_number n (c ∷ cs) =
    let more = read_number (n * 10 + (c - b'0')) cs in
    if leb b'0' c && leb c b'9' then more else (n, c ∷ cs)

unfoldable pub read_prec : List ℕ → Option ℕ × List ℕ
read_prec [] = (none, [])
read_prec (c ∷ cs) =
    if c == b'.' then (let (n, rest) = read_number 0 cs in (some n, rest)) else (none, c ∷ cs)

pub record Directive : Type 0 where
  pub left : Bool
  pub zeros : Bool
  pub width : ℕ
  pub prec : Option ℕ
  pub rest : List ℕ

unfoldable pub directive : List ℕ → Directive
directive fmt =
    let f = read_flags false false fmt in
    let (width, fmt1) = read_number 0 f.rest in
    let (prec, fmt2) = read_prec fmt1 in
    record { left = f.left; zeros = f.zeros; width = width; prec = prec; rest = fmt2 }

-- `tmp`, the sign and the arguments that are left.
pub record Piece : Type 0 where
  pub tmp : List ℕ
  pub negative : Bool
  pub args : List Arg

-- at least so many digits
abbrev pub min_digits : Option ℕ → List ℕ → List ℕ
min_digits none num = num
min_digits (some p) num = replicate (p - length num) b'0' ++ num

-- at most so many characters
abbrev pub max_chars : Option ℕ → List ℕ → List ℕ
max_chars none s = s
max_chars (some p) s = take p s

-- "(null)"
abbrev pub null_text : List ℕ
null_text = b'(' ∷ b'n' ∷ b'u' ∷ b'l' ∷ b'l' ∷ b')' ∷ []

abbrev pub is_negative : ℕ → Bool
is_negative v = leb 0x80000000 v

-- The conversions that take a word. `none` is a character that is none of them, or the least `int`,
-- which `-v` does not negate.
abbrev pub convert_word : ℕ → Option ℕ → ℕ → Option (List ℕ × Bool)
convert_word k prec v =
    if k == b'c'
    then some (v % 256 ∷ [], false)
    else if k == b'd' || k == b'i'
    then (if v == 0x80000000
        then none
        else some (
          min_digits prec (u32_to_str (if is_negative v then sub32 0 v else v) 10 false),
          is_negative v,
        ))
    else if k == b'u'
    then some (min_digits prec (u32_to_str v 10 false), false)
    else if k == b'x'
    then some (min_digits prec (u32_to_str v 16 false), false)
    else if k == b'X'
    then some (min_digits prec (u32_to_str v 16 true), false)
    else if k == b'p'
    then some (b'0' ∷ b'x' ∷ u32_to_str v 16 false, false)
    else none

-- `va_arg` of an argument that is not there, or of the other kind, is undefined.
abbrev pub with_word : ℕ → Option ℕ → List Arg → Option Piece
with_word k prec (word v ∷ args) = elim (convert_word k prec v) [
  | none ↦ none
  | some (tmp, negative) ↦ some (record { tmp = tmp; negative = negative; args = args })
]
with_word k prec args = none

abbrev pub with_text : Option ℕ → List Arg → Option Piece
with_text prec (text s ∷ args) =
    some (record { tmp = max_chars prec s; negative = false; args = args })
with_text prec (null ∷ args) =
    some (record { tmp = max_chars prec null_text; negative = false; args = args })
with_text prec args = none

abbrev pub takes_word : ℕ → Bool
takes_word k =
    k == b'c' || k == b'd' || k == b'i' || k == b'u' || k == b'x' || k == b'X' || k == b'p'

unfoldable pub convert : ℕ → Option ℕ → List Arg → Option Piece
convert k prec args =
    if takes_word k
    then with_word k prec args
    else if k == b's'
    then with_text prec args
    else if k == b'%'
    then some (record { tmp = b'%' ∷ []; negative = false; args = args })
    else some (record { tmp = b'%' ∷ k ∷ []; negative = false; args = args })

-- `width` or `prec` has overflowed: the number of the digits that were read is no `int`.
abbrev pub overflows : Directive → Bool
overflows d = leb 0x80000000 d.width || (elim d.prec [ none ↦ false | some p ↦ leb 0x80000000 p ])

abbrev pub no_prec : Option ℕ → Bool
no_prec none = true
no_prec (some p) = false

-- The padding, the sign and `tmp`.
unfoldable pub put_piece : ℕ → Directive → Piece → Output → Output
put_piece size d p o =
    let body = length p.tmp + (if p.negative then 1 else 0) in
    let padding = d.width - body in
    let zero_pad = d.zeros && not d.left in
    let o1 = if not d.left && not zero_pad then putpad size b' ' padding o else o in
    let o2 = if p.negative then putc_into size b'-' o1 else o1 in
    let o3 = if not d.left && zero_pad && no_prec d.prec then putpad size b'0' padding o2 else o2 in
    let o4 = put_all size p.tmp o3 in if d.left then putpad size b' ' padding o4 else o4

-- How a call ends. `undefined` is a missing argument, the least `int` for `%d`, a width or a precision that overflows, more
-- than the 80 characters of `tmp`, or an index that is no `int`; `unfinished` a run whose fuel is used up.
pub data Outcome : Type 0 where
  finished : Output → Outcome
  undefined : Outcome
  unfinished : Outcome

-- The loop over the format. A percent sign at its end is printed.
unfoldable pub format_loop : ℕ → ℕ → List ℕ → List Arg → Output → Outcome
format_loop zero size fmt args o = unfinished
format_loop (suc fuel) size [] args o = finished o
format_loop (suc fuel) size (c ∷ cs) args o =
    let plain = format_loop fuel size cs args (putc_into size c o) in
    if not (c == b'%')
    then plain
    else (let d = directive cs in
        elim d.rest [
          | [] ↦ if overflows d then undefined else finished (putc_into size b'%' o)
          | k ∷ rest ↦ elim (convert k d.prec args) [
            | none ↦ undefined
            | some p ↦
                if overflows d || ltb 80 (length p.tmp)
                then undefined
                else format_loop fuel size rest p.args (put_piece size d p o)
          ]
        ])

-- buf[idx < size ? idx : size - 1] = '\0'
abbrev pub end_string : ℕ → Output → Output
end_string size o = record o { buf = update o.buf (if ltb o.idx size then o.idx else size - 1) 0 }

abbrev pub finish : ℕ → Outcome → Outcome
finish size (finished o) = if leb 0x80000000 o.idx then undefined else finished (end_string size o)
finish size undefined = undefined
finish size unfinished = unfinished

unfoldable pub kvsnprintf : (ℕ → ℕ) → ℕ → List ℕ → List Arg → Outcome
kvsnprintf buf size fmt args =
    let start : Output = record { idx = 0; buf = buf } in
    if size == 0
    then finished start
    else finish size (format_loop (suc (length fmt)) size fmt args start)

unfoldable pub ksprintf : (ℕ → ℕ) → List ℕ → List Arg → Outcome
ksprintf buf fmt args = kvsnprintf buf 0x1000 fmt args

-- the string in a buffer, of `n` bytes at most
unfoldable pub string_at : ℕ → ℕ → (ℕ → ℕ) → List ℕ
string_at zero i buf = []
string_at (suc n) i buf =
    let rest = string_at n (i + 1) buf in if buf i == 0 then [] else buf i ∷ rest
