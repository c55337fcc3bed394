-- ===== src/Printf/Tests.antt =====
-- Runs and witnesses of the formatting engine.
use nova_kernel.Prelude.{
  ℕ, ◌-◌, ◌≡◌, refl, true, ltb, ◌==◌, if◌then◌else◌, arith, List, [], ◌∷◌, length, get_or, some,
  min,
}
use nova_kernel.Printf.{
  Arg, word, text, u32_to_str, Output, finished, kvsnprintf, digits_rev, reverse_onto, directive,
  read_flags, read_number, read_prec, convert,
}
use nova_kernel.Printf.Digits.{parse, parse-u32_to_str}
use nova_kernel.Printf.Bounds.{formatted, text_of, piece_text, kvsnprintf-formatted}
use nova_kernel.Printf.Total.{Ending, kvsnprintf-total}

parse-u32_to_str_example : parse 16 0 (u32_to_str 0xDEADBEEF 16 true) ≡ 0xDEADBEEF
parse-u32_to_str_example =
    parse-u32_to_str 0xDEADBEEF 16 true (omega arith) (omega arith) (omega arith)

-- "%-5s|%04x"
abbrev row : List ℕ
row = b'%' ∷ b'-' ∷ b'5' ∷ b's' ∷ b'|' ∷ b'%' ∷ b'0' ∷ b'4' ∷ b'x' ∷ []

abbrev row_args : List Arg
row_args = text (b'a' ∷ b'b' ∷ []) ∷ word 0x2F ∷ []

abbrev row_text : List ℕ
row_text = b'a' ∷ b'b' ∷ b' ' ∷ b' ' ∷ b' ' ∷ b'|' ∷ b'0' ∷ b'0' ∷ b'2' ∷ b'f' ∷ []

formatted-row : formatted row row_args ≡ some row_text
unfolding formatted text_of piece_text directive read_flags read_number read_prec convert u32_to_str
    digits_rev reverse_onto
formatted-row = refl

-- in a buffer of eight bytes
kvsnprintf-formatted_example :
    (o : Output) × (kvsnprintf (λ i. 7) 8 row row_args ≡ finished o)
    × (o.idx ≡ length row_text)
    × ((i : ℕ)
        → o.buf i ≡ (
            if i == min (length row_text) (8 - 1)
            then 0
            else if ltb i (min (length row_text) (8 - 1))
            then get_or row_text i 0
            else 7))
kvsnprintf-formatted_example =
    kvsnprintf-formatted (λ i. 7) 8 row row_args row_text (omega arith) formatted-row (omega arith)

kvsnprintf-total_example : Ending row row_args (kvsnprintf (λ i. 7) 8 row row_args)
kvsnprintf-total_example = kvsnprintf-total (λ i. 7) 8 row row_args (omega arith)

-- A zero flag beside a precision pads with nothing: "%05.2u" of 7 is two characters.
zero_flag_prec :
    formatted (b'%' ∷ b'0' ∷ b'5' ∷ b'.' ∷ b'2' ∷ b'u' ∷ []) (word 7 ∷ []) ≡ some (b'0' ∷ b'7' ∷ [])
unfolding formatted text_of piece_text directive read_flags read_number read_prec convert u32_to_str
    digits_rev reverse_onto
zero_flag_prec = refl
