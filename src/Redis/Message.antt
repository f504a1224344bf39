-- ===== src/Redis/Message.antt =====
-- The bytes of an error reply as the text of an error. What is not printable ASCII becomes a question mark.
use Prim.Native.String.{char_at, ◌∷◌ as cons}
use canada_post.Prelude.{◌-◌, String, [], ◌∷◌, ◌&&◌, leb, if◌then◌else◌}
use canada_post.Redis.Decimal.{Bytes}

abbrev printable : String
printable =
    " !\"#$%&'()*+,-./0123456789:;<=>?@ABCDEFGHIJKLMNOPQRSTUVWXYZ[\\]^_`abcdefghijklmnopqrstuvwxyz{|}~"

unfoldable pub message_of : Bytes → String
message_of [] = ""
message_of (n ∷ s) =
    cons (if leb 32 n && leb n 126 then char_at printable (n - 32) else char_at "?" 0)
      (message_of s)
