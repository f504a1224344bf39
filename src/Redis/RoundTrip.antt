-- ===== src/Redis/RoundTrip.antt =====
-- What the server reads of a command that the client wrote: the reader of the same file reads it back.
use mathlib.Core.List.{append_assoc}
use Prim.Native.Nat.{◌^◌}
use canada_post.Prelude.{
  ℕ, suc, ◌<◌, pos, List, [], ◌∷◌, ◌++◌, some, Result, ok, err, length, ◌≡◌, refl, ap, ◌∙◌, arith,
  All, subst,
}
use canada_post.Redis.Decimal.{Bytes, decimal, IsDigit, decimal-digits, parse_int-decimal}
use canada_post.Redis.{
  Reply, Replies, crlf, bulk_string, bulk_strings, write_command, until_newline, strip_return,
  read_line, read_full, line_int, read_many, read_bulk, read_array, read_rest, read_nested,
  read_reply,
}

abbrev pub bulks : List Bytes → Replies
bulks [] = Replies.end
bulks (arg ∷ args) = Replies.reply (Reply.bulk arg) (bulks args)

until_newline-digits :
    (ds rest : Bytes)
    → All IsDigit ds
    → until_newline (ds ++ (13 ∷ 10 ∷ rest)) ≡ some (ds ++ (13 ∷ []), rest)
unfolding until_newline
until_newline-digits [] rest h = refl
until_newline-digits (c ∷ ds) rest (d, h) = rw (until_newline-digits ds rest h) (ground arith)

strip_return-append : (ds : Bytes) → strip_return (ds ++ (13 ∷ [])) ≡ ds
unfolding strip_return
strip_return-append [] = refl
strip_return-append (c ∷ []) = refl
strip_return-append (c ∷ d ∷ ds) = ap (λ s. c ∷ s) (strip_return-append (d ∷ ds))

read_line-digits :
    (ds rest : Bytes) → All IsDigit ds → read_line (ds ++ (13 ∷ 10 ∷ rest)) ≡ ok (ds, rest)
unfolding read_line
read_line-digits ds rest h =
    rw (until_newline-digits ds rest h, read_line) (ap (λ t. ok (t, rest)) (strip_return-append ds))

-- a line with a length
read_line-decimal :
    (n : ℕ) (rest : Bytes) → read_line (decimal n ++ (13 ∷ 10 ∷ rest)) ≡ ok (decimal n, rest)
read_line-decimal n rest = read_line-digits (decimal n) rest (decimal-digits n)

line_int-decimal : (n : ℕ) → n < 2 ^ 63 → line_int (decimal n) ≡ ok (pos n)
line_int-decimal n fits = rw (parse_int-decimal n fits, line_int) refl

read_full-append : (a rest : Bytes) → read_full (length a) (a ++ rest) ≡ ok (a, rest)
unfolding read_full
read_full-append [] rest = refl
read_full-append (c ∷ a) rest = rw (read_full-append a rest) refl

read_bulk-append :
    (a rest : Bytes) → read_bulk (pos (length a)) (a ++ (13 ∷ 10 ∷ rest)) ≡ ok (Reply.bulk a, rest)
unfolding read_bulk
read_bulk-append a rest = rw (read_full-append a (13 ∷ 10 ∷ rest)) refl

bulk_string-append :
    (a rest : Bytes)
    → bulk_string a ++ rest ≡ b'$' ∷ (decimal (length a) ++ (13 ∷ 10 ∷ (a ++ (13 ∷ 10 ∷ rest))))
unfolding bulk_string
bulk_string-append a rest =
    ap (λ s. b'$' ∷ s)
      (append_assoc (decimal (length a)) (crlf ++ (a ++ crlf)) rest
        ∙ ap (λ s. decimal (length a) ++ (13 ∷ 10 ∷ s)) (append_assoc a crlf rest))

-- A bulk string that the client writes is read back, whatever bytes it holds, line breaks included, and
-- whatever follows it.
read_rest-bulk_string :
    (read : Bytes → Result (Reply × Bytes)) (a rest : Bytes)
    → length a < 2 ^ 63
    → read_rest read b'$' (decimal (length a) ++ (13 ∷ 10 ∷ (a ++ (13 ∷ 10 ∷ rest))))
      ≡ ok (Reply.bulk a, rest)
unfolding read_rest
read_rest-bulk_string read a rest fits =
    rw (read_line-decimal (length a) (a ++ (13 ∷ 10 ∷ rest)))
      (rw (line_int-decimal (length a) fits) (read_bulk-append a rest))

pub read_nested-bulk_string :
    (fuel : ℕ) (a rest : Bytes)
    → length a < 2 ^ 63
    → read_nested (suc fuel) (bulk_string a ++ rest) ≡ ok (Reply.bulk a, rest)
unfolding read_nested
read_nested-bulk_string fuel a rest fits =
    rw (bulk_string-append a rest) (read_rest-bulk_string (read_nested fuel) a rest fits)

-- the length of every argument is an int64
abbrev pub IsShort : Bytes → Type 0
IsShort a = length a < 2 ^ 63

read_many-bulk_strings :
    (fuel : ℕ) (args : List Bytes) (rest : Bytes)
    → All IsShort args
    → read_many (read_nested (suc fuel)) (length args) (bulk_strings args ++ rest)
      ≡ ok (bulks args, rest)
unfolding read_many bulk_strings
read_many-bulk_strings fuel [] rest h = refl
read_many-bulk_strings fuel (a ∷ args) rest (short, h) =
    rw (append_assoc (bulk_string a) (bulk_strings args) rest) (
      rw (read_nested-bulk_string fuel a (bulk_strings args ++ rest) short)
        (rw (read_many-bulk_strings fuel args rest h) refl))

read_rest-bulk_strings :
    (fuel : ℕ) (args : List Bytes) (rest : Bytes)
    → length args < 2 ^ 63
    → All IsShort args
    → read_rest
        (read_nested (suc fuel))
        b'*'
        (decimal (length args) ++ (13 ∷ 10 ∷ (bulk_strings args ++ rest)))
      ≡ ok (Reply.array (bulks args), rest)
unfolding read_rest read_array
read_rest-bulk_strings fuel args rest count short =
    rw (read_line-decimal (length args) (bulk_strings args ++ rest)) (
      rw (line_int-decimal (length args) count)
        (rw (read_many-bulk_strings fuel args rest short) refl))

read_nested-array :
    (fuel : ℕ) (args : List Bytes) (rest : Bytes)
    → length args < 2 ^ 63
    → All IsShort args
    → read_nested
        (suc (suc fuel))
        ((b'*' ∷ (decimal (length args) ++ (crlf ++ bulk_strings args))) ++ rest)
      ≡ ok (Reply.array (bulks args), rest)
unfolding read_nested
read_nested-array fuel args rest count short =
    rw (append_assoc (decimal (length args)) (crlf ++ bulk_strings args) rest)
      (read_rest-bulk_strings fuel args rest count short)

read_reply-array :
    (args : List Bytes) (rest : Bytes)
    → length args < 2 ^ 63
    → All IsShort args
    → read_reply ((b'*' ∷ (decimal (length args) ++ (crlf ++ bulk_strings args))) ++ rest)
      ≡ ok (Reply.array (bulks args), rest)
unfolding read_reply
read_reply-array args rest = read_nested-array _ args rest

written_of : Result Bytes → Bytes
written_of (ok s) = s
written_of (err e) = []

-- What the client writes for a command, the reader of replies reads back as the array of its arguments, in their
-- order and byte for byte, and leaves exactly the bytes behind it: no argument, whatever bytes it holds, can add, drop or
-- change another one. The lengths are int64 numbers, as they are in Go.
pub read_reply-write_command :
    (args : List Bytes) (rest written : Bytes)
    → length args < 2 ^ 63
    → All IsShort args
    → write_command args ≡ ok written
    → read_reply (written ++ rest) ≡ ok (Reply.array (bulks args), rest)
unfolding write_command written_of
read_reply-write_command [] rest written count short h = absurd (cc h)
read_reply-write_command (a ∷ args) rest written count short h =
    subst (λ s. read_reply (s ++ rest) ≡ ok (Reply.array (bulks (a ∷ args)), rest))
      (ap written_of h) (read_reply-array (a ∷ args) rest count short)
