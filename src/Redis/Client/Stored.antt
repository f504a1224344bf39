-- ===== src/Redis/Client/Stored.antt =====
-- A snapshot that was saved is loaded again.
use Prim.Native.Nat.{◌^◌}
use canada_post.Prelude.{
  ℕ, suc, ◌<◌, ℤ, String, List, [], ◌∷◌, false, ◌≡◌, refl, ap, ◌∙◌, subst, ok, length, is_positive,
}
use mathlib.Core.List.{append-nil}
use canada_post.Text.{◌⧺◌, trim, blank}
use canada_post.Text.Laws.{trim_idem}
use canada_post.Float64.{Float64}
use canada_post.Snapshot.{RateSnapshot}
use canada_post.Redis.{
  Reply, bulk_string, write_command, read_reply, read_nested, read_line, read_rest, until_newline,
  strip_return,
}
use canada_post.Redis.Decimal.{Bytes}
use canada_post.Redis.RoundTrip.{read_nested-bulk_string}
use canada_post.Redis.Client.{
  Server, RedisClient, set_args, get_word, exchange, authenticate, select_db, perform, set_value,
  get_value, Codec, snapshot_key, save, load, snapshot_of,
}

-- "+OK\r\n"
abbrev pub ok_line : Bytes
ok_line = 43 ∷ (79 ∷ (75 ∷ (13 ∷ (10 ∷ []))))

-- What Redis documents of SET and GET, for one key and value: connections open, SET is answered with OK, and GET on the next
-- connection with the value.
pub record IsStored (server : Server) (st : server.State) (key value : Bytes) (ttl : ℕ)
    : Type 0 where
  pub opened : server.State
  pub stored : server.State
  pub reopened : server.State
  pub last : server.State
  pub set_bytes : Bytes
  pub get_bytes : Bytes
  pub dialed : server.dial st ≡ ok opened
  pub set_written : write_command (set_args key value ttl) ≡ ok set_bytes
  pub set_answered : server.answer opened set_bytes ≡ (stored, ok_line)
  pub redialed : server.dial stored ≡ ok reopened
  pub get_written : write_command (get_word ∷ (key ∷ [])) ≡ ok get_bytes
  pub get_answered : server.answer reopened get_bytes ≡ (last, bulk_string value)

-- a client that sends neither AUTH nor SELECT, for a `db` that is not above zero
abbrev pub plain_client : ℤ → RedisClient
plain_client db = record { password = []; db = db }

read_ok : read_reply ok_line ≡ ok (Reply.line (79 ∷ (75 ∷ [])), [])
unfolding read_reply read_nested read_rest read_line until_newline strip_return
read_ok = refl

read_value : (v : Bytes) → length v < 2 ^ 63 → read_reply (bulk_string v) ≡ ok (Reply.bulk v, [])
unfolding read_reply
read_value v short =
    subst (λ s. read_nested (suc (length s)) s ≡ ok (Reply.bulk v, [])) (append-nil (bulk_string v))
      (read_nested-bulk_string _ v [] short)

module _ (server : Server) (db : ℤ) where
  perform-plain_client :
      (st opened after : server.State) (args : List Bytes) (bytes sent : Bytes)
      → is_positive db ≡ false
      → server.dial st ≡ ok opened
      → write_command args ≡ ok bytes
      → server.answer opened bytes ≡ (after, sent)
      → perform server (plain_client db) st args ≡ (after, read_reply sent)
  unfolding perform authenticate select_db exchange
  perform-plain_client st opened after args bytes sent no_db dialed written answered =
      rw (dialed, perform) (rw (no_db, select_db) (rw (written, exchange) (rw answered refl)))

  -- A value that was set is read again, whatever its bytes: a client without AUTH and SELECT, of a server that answers SET and
  -- GET as Redis does, gets from the key the value it has set, of a length that is an int64.
  get_value-set_value :
      (st : server.State) (key value : Bytes) (ttl : ℕ)
      → is_positive db ≡ false
      → length value < 2 ^ 63
      → IsStored server st key value ttl
      → ((set_value server (plain_client db) st key value ttl).1 ≡ ok tt)
        × ((get_value server
              (plain_client db)
              (set_value server (plain_client db) st key value ttl).0
              key).1
            ≡ ok value)
  unfolding set_value get_value
  get_value-set_value st key value ttl no_db short w =
      let sets =
        perform-plain_client st w.opened w.stored _ w.set_bytes ok_line no_db w.dialed w.set_written
          w.set_answered in
      let gets =
        perform-plain_client w.stored w.reopened w.last _ w.get_bytes (bulk_string value) no_db
          w.redialed w.get_written w.get_answered in
      rw sets (rw read_ok (rw gets (rw (read_value value short) (refl, refl))))

  module _ ⦃fl : Float64⦄ (codec : Codec) where
    snapshot_key-trim : (id : String) → snapshot_key codec (trim id) ≡ snapshot_key codec id
    unfolding snapshot_key
    snapshot_key-trim id = ap (λ t. codec.utf8 ("rate:" ⧺ t)) (trim_idem id)

    -- A snapshot that `Save` was given is what `Load` returns for its rate id, white space around the id aside: for such a client
    -- and server, if JSON reads back what it wrote for it.
    pub load-save :
        (st : server.State) (s : RateSnapshot fl.Value) (payload : Bytes) (ttl : ℕ)
        (rate_id : String)
        → is_positive db ≡ false
        → blank s.rate_id ≡ false
        → trim rate_id ≡ trim s.rate_id
        → codec.marshal s ≡ ok payload
        → codec.unmarshal payload ≡ ok s
        → length payload < 2 ^ 63
        → IsStored server st (snapshot_key codec s.rate_id) payload ttl
        → ((save server codec (plain_client db) ttl st s).1 ≡ ok tt)
          × ((load server codec
                (plain_client db)
                (save server codec (plain_client db) ttl st s).0
                rate_id).1
              ≡ ok s)
    unfolding save load
    load-save st s payload ttl rate_id no_db given same written read short stored =
        let (set_fine, get_fine) =
          get_value-set_value st (snapshot_key codec s.rate_id) payload ttl no_db short stored in
        rw same (
          rw given (
            rw written (
              rw (snapshot_key-trim s.rate_id)
                (set_fine, ap (snapshot_of server codec) get_fine ∙ read))))
