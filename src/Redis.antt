-- ===== src/Redis.antt =====
-- The Redis protocol of service/rate_snapshot_store.go: `writeCommand`, `readReply` and `readLine` on lists
-- of bytes. Arrays nest, so the reader has fuel for the depth; each level takes a byte of
-- its input, which bounds the depth by the length of the input.
pub mod Decimal
pub mod Message
pub mod Client
pub mod RoundTrip
use canada_post.Prelude.{
  ℕ, zero, suc, ◌+◌, ◌-◌, ◌*◌, ℤ, pos, negsuc, List, [], ◌∷◌, ◌++◌, Option, none, some, Bool, true,
  false, Result, ok, err, ◌>>=◌, length, nat_eq, ltb, if◌then◌else◌,
}
use canada_post.Redis.Decimal.{Bytes, decimal, parse_int}
use canada_post.Redis.Message.{message_of}

mutual
  pub data Reply : Type 0 where
    missing : Reply
    line : Bytes → Reply
    integer : ℤ → Reply
    bulk : Bytes → Reply
    array : Replies → Reply

  pub data Replies : Type 0 where
    end : Replies
    reply : Reply → Replies → Replies

abbrev crlf : Bytes
crlf = 13 ∷ 10 ∷ []

-- "$%d\r\n%s\r\n"
unfoldable pub bulk_string : Bytes → Bytes
bulk_string arg = b'$' ∷ (decimal (length arg) ++ (crlf ++ (arg ++ crlf)))

unfoldable pub bulk_strings : List Bytes → Bytes
bulk_strings [] = []
bulk_strings (arg ∷ args) = bulk_string arg ++ bulk_strings args

unfoldable pub write_command : List Bytes → Result Bytes
write_command [] = err "redis command missing arguments"
write_command (arg ∷ args) =
    ok (b'*' ∷ (decimal (length (arg ∷ args)) ++ (crlf ++ bulk_strings (arg ∷ args))))

-- `r.ReadString('\n')`, without the newline
unfoldable pub until_newline : Bytes → Option (Bytes × Bytes)
until_newline [] = none
until_newline (c ∷ s) =
    if nat_eq c 10
    then some ([], s)
    else elim (until_newline s) [ none ↦ none | some (before, rest) ↦ some (c ∷ before, rest) ]

-- `strings.TrimSuffix(line, "\r")`
unfoldable pub strip_return : Bytes → Bytes
strip_return [] = []
strip_return (c ∷ []) = if nat_eq c 13 then [] else c ∷ []
strip_return (c ∷ d ∷ s) = c ∷ strip_return (d ∷ s)

unfoldable pub read_line : Bytes → Result (Bytes × Bytes)
read_line s = elim (until_newline s) [
  | none ↦ err "EOF"
  | some (before, rest) ↦ ok (strip_return before, rest)
]

-- `io.ReadFull` of a buffer of this size
unfoldable pub read_full : ℕ → Bytes → Result (Bytes × Bytes)
read_full zero s = ok ([], s)
read_full (suc n) [] = err "unexpected EOF"
read_full (suc n) (c ∷ s) = do (front, rest) ← read_full n s; ok (c ∷ front, rest)

-- `r.ReadByte()`
abbrev read_byte : Bytes → Result (ℕ × Bytes)
read_byte [] = err "EOF"
read_byte (c ∷ s) = ok (c, s)

-- `strconv.Atoi` and `strconv.ParseInt` of a line
abbrev line_int : Bytes → Result ℤ
line_int s = elim (parse_int s) [ none ↦ err "invalid syntax" | some n ↦ ok n ]

-- the loop over the elements of an array
unfoldable pub read_many : (Bytes → Result (Reply × Bytes)) → ℕ → Bytes → Result (Replies × Bytes)
read_many read zero s = ok (end, s)
read_many read (suc n) s = do
  (value, rest) ← read s
  (values, left) ← read_many read n rest
  ok (reply value values, left)

-- the case of '$', behind its line
unfoldable pub read_bulk : ℤ → Bytes → Result (Reply × Bytes)
read_bulk (negsuc _) s = ok (missing, s)
read_bulk (pos size) s = do
  (buf, rest) ← read_full size s
  (_, rest1) ← read_byte rest
  (_, rest2) ← read_byte rest1
  ok (bulk buf, rest2)

-- the case of '*', behind its line
unfoldable pub read_array : (Bytes → Result (Reply × Bytes)) → ℤ → Bytes → Result (Reply × Bytes)
read_array read (negsuc _) s = ok (missing, s)
read_array read (pos count) s = do (values, rest) ← read_many read count s; ok (array values, rest)

-- behind the first byte
unfoldable pub read_rest : (Bytes → Result (Reply × Bytes)) → ℕ → Bytes → Result (Reply × Bytes)
read_rest read prefix s =
    if nat_eq prefix b'+'
    then (do (text, rest) ← read_line s; ok (line text, rest))
    else if nat_eq prefix b'-'
    then (do (text, _) ← read_line s; err (message_of text))
    else if nat_eq prefix b':'
    then (do (text, rest) ← read_line s; value ← line_int text; ok (integer value, rest))
    else if nat_eq prefix b'$'
    then (do (text, rest) ← read_line s; size ← line_int text; read_bulk size rest)
    else if nat_eq prefix b'*'
    then (do (text, rest) ← read_line s; count ← line_int text; read_array read count rest)
    else err "unexpected redis reply prefix"

-- with fuel for the depth of the arrays
unfoldable pub read_nested : ℕ → Bytes → Result (Reply × Bytes)
read_nested zero s = err "out of fuel"
read_nested (suc fuel) [] = err "EOF"
read_nested (suc fuel) (prefix ∷ s) = read_rest (read_nested fuel) prefix s

unfoldable pub read_reply : Bytes → Result (Reply × Bytes)
read_reply s = read_nested (suc (length s)) s
