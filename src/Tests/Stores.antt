-- ===== src/Tests/Stores.antt =====
-- A store that is saved to and loaded from, against a server that parses the commands it gets.
use canada_post.Prelude.{pos, [], ◌∷◌, Option, none, some, ◌≡◌, refl, ok, Result, arith}
use canada_post.Text.{trim}
use canada_post.Float64.Sample.{sample}
use canada_post.Redis.{
  Reply, Replies, write_command, read_reply, bulk_string, bulk_strings, until_newline, strip_return,
  read_line, read_full, read_many, read_bulk, read_array, read_rest, read_nested,
}
use canada_post.Redis.Decimal.{Bytes, decimal, emit_digits, parse_int, scan_digits}
use canada_post.Redis.Client.{Server, Codec, snapshot_key, save, load}
use canada_post.Redis.Client.Stored.{IsStored, ok_line, plain_client, load-save}
use canada_post.Tests.Samples.{snapshot}

-- the last key and value, if any
abbrev One : Type 0
One = Option (Bytes × Bytes)

abbrev held : One → Bytes
held none = 36 ∷ (45 ∷ (49 ∷ (13 ∷ (10 ∷ []))))
held (some (key, value)) = bulk_string value

-- GET has two arguments, SET more
abbrev serve : One → Replies → One × Bytes
serve st Replies.end = (st, [])
serve st (Replies.reply _ Replies.end) = (st, [])
serve st (Replies.reply _ (Replies.reply _ Replies.end)) = (st, held st)
serve st (Replies.reply _ (Replies.reply (Reply.bulk key) (Replies.reply (Reply.bulk value) _))) =
    (some (key, value), ok_line)
serve st _ = (st, [])

abbrev serve_reply : One → Result (Reply × Bytes) → One × Bytes
serve_reply st (ok (Reply.array args, _)) = serve st args
serve_reply st _ = (st, [])

abbrev server : Server
server = record {
  State = One;
  dial = λ st. ok st;
  answer = λ st bytes. serve_reply st (read_reply bytes);
}

abbrev codec : Codec ⦃fl = sample⦄
codec = record {
  marshal = λ s. ok (123 ∷ (125 ∷ []));
  unmarshal = λ bytes. ok snapshot;
  utf8 = λ text. 114 ∷ (49 ∷ []);
}

abbrev key : Bytes
key = 114 ∷ (49 ∷ [])

abbrev payload : Bytes
payload = 123 ∷ (125 ∷ [])

-- SET r1 {} EX 1800
abbrev set_bytes : Bytes
set_bytes =
    42 ∷ 53 ∷ 13 ∷ 10 ∷ 36 ∷ 51 ∷ 13 ∷ 10 ∷ 83 ∷ 69 ∷ 84 ∷ 13 ∷ 10 ∷ 36 ∷ 50 ∷ 13 ∷ 10 ∷ 114 ∷ 49
    ∷ 13 ∷ 10 ∷ 36 ∷ 50 ∷ 13 ∷ 10 ∷ 123 ∷ 125 ∷ 13 ∷ 10 ∷ 36 ∷ 50 ∷ 13 ∷ 10 ∷ 69 ∷ 88 ∷ 13 ∷ 10 ∷ 36
    ∷ 52 ∷ 13 ∷ 10 ∷ 49 ∷ 56 ∷ 48 ∷ 48 ∷ 13 ∷ 10 ∷ []

-- GET r1
abbrev get_bytes : Bytes
get_bytes =
    42 ∷ 50 ∷ 13 ∷ 10 ∷ 36 ∷ 51 ∷ 13 ∷ 10 ∷ 71 ∷ 69 ∷ 84 ∷ 13 ∷ 10 ∷ 36 ∷ 50 ∷ 13 ∷ 10 ∷ 114 ∷ 49
    ∷ 13 ∷ 10 ∷ []

stored : IsStored server none key payload 1800
unfolding read_reply read_nested read_rest read_array read_many read_bulk read_full read_line
    until_newline strip_return parse_int scan_digits write_command bulk_strings bulk_string decimal
    emit_digits
stored = record {
  opened = none;
  stored = some (key, payload);
  reopened = some (key, payload);
  last = some (key, payload);
  set_bytes = set_bytes;
  get_bytes = get_bytes;
  dialed = refl;
  set_written = refl;
  set_answered = refl;
  redialed = refl;
  get_written = refl;
  get_answered = refl;
}

load-save_example :
    ((save server ⦃fl = sample⦄ codec (plain_client (pos 0)) 1800 none snapshot).1 ≡ ok tt)
    × ((load server ⦃fl = sample⦄ codec
          (plain_client (pos 0))
          (save server ⦃fl = sample⦄ codec (plain_client (pos 0)) 1800 none snapshot).0
          " r1 ").1
        ≡ ok snapshot)
unfolding trim snapshot_key
load-save_example =
    load-save server (pos 0) ⦃fl = sample⦄ codec none snapshot payload 1800 " r1 " refl refl refl
      refl refl (omega arith) stored
