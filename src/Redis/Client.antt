-- ===== src/Redis/Client.antt =====
-- `redisClient` and `RateSnapshotStore` of service/rate_snapshot_store.go: `do`, `set`, `get`, `Save` and `Load`. The
-- server is a parameter: its state, the start of a connection, and the bytes it answers to what is
-- written. JSON and UTF-8 are parameters as well. The address and the deadlines belong to the network.
pub mod Stored
use canada_post.Prelude.{
  ℕ, ℤ, pos, negsuc, String, List, [], ◌∷◌, ◌++◌, Option, none, some, Bool, true, false, Result, ok,
  err, is_positive, if◌then◌else◌, ◌==◌,
}
use canada_post.Text.{◌⧺◌, trim, is_empty, blank}
use canada_post.Float64.{Float64}
use canada_post.Snapshot.{RateSnapshot}
use canada_post.Redis.Decimal.{Bytes, decimal}
use canada_post.Redis.{Reply, Replies, write_command, read_reply}

pub record Server : Type 1 where
  pub State : Type 0
  pub dial : State → Result State
  pub answer : State → Bytes → State × Bytes

pub record RedisClient : Type 0 where
  pub password : Bytes
  pub db : ℤ

-- ASCII texts of the commands
abbrev set_word : Bytes
set_word = 83 ∷ (69 ∷ (84 ∷ []))

abbrev get_word : Bytes
get_word = 71 ∷ (69 ∷ (84 ∷ []))

abbrev ex_word : Bytes
ex_word = 69 ∷ (88 ∷ [])

abbrev auth_word : Bytes
auth_word = 65 ∷ (85 ∷ (84 ∷ (72 ∷ [])))

abbrev select_word : Bytes
select_word = 83 ∷ (69 ∷ (76 ∷ (69 ∷ (67 ∷ (84 ∷ [])))))

-- `strconv.Itoa` of a positive number
abbrev itoa : ℤ → Bytes
itoa (pos n) = decimal n
itoa (negsuc n) = 45 ∷ decimal (Prim.Native.Nat.suc n)

-- "redis: nil", as `errRedisNil`
abbrev redis_nil : String
redis_nil = "redis: nil"

abbrev set_args : Bytes → Bytes → ℕ → List Bytes
set_args key value seconds =
    set_word
    ∷ (key ∷ (value ∷ (if is_positive (pos seconds) then ex_word ∷ (decimal seconds ∷ []) else [])))

module _ ⦃fl : Float64⦄ where
  -- the library's part of the store
  pub record Codec : Type 0 where
    pub marshal : RateSnapshot fl.Value → Result Bytes
    pub unmarshal : Bytes → Result (RateSnapshot fl.Value)
    pub utf8 : String → Bytes

  unfoldable pub snapshot_key : Codec → String → Bytes
  snapshot_key codec rate_id = codec.utf8 ("rate:" ⧺ trim rate_id)
  -- `Save`, of a store that is configured

module _ (server : Server) where
  -- what a call leaves: the server, and the reply with the bytes not read yet
  abbrev Exchange : Type 0
  Exchange = server.State × Result (Reply × Bytes)

  -- `writeCommand` and `readReply` on one connection
  unfoldable pub exchange : server.State → Bytes → List Bytes → Exchange
  exchange st unread args = elim (write_command args) [
    | err e ↦ (st, err e)
    | ok bytes ↦ let (after, sent) = server.answer st bytes in (after, read_reply (unread ++ sent))
  ]

  abbrev and_then : Exchange → (server.State → Bytes → Exchange) → Exchange
  and_then (st, err e) next = (st, err e)
  and_then (st, ok (_, unread)) next = next st unread

  -- the two commands that open a connection, each under its condition
  unfoldable pub authenticate :
      Bytes → server.State → Bytes → (server.State → Bytes → Exchange) → Exchange
  authenticate [] st unread next = next st unread
  authenticate (c ∷ password) st unread next =
      and_then (exchange st unread (auth_word ∷ ((c ∷ password) ∷ []))) next

  unfoldable pub select_db : ℤ → server.State → Bytes → (server.State → Bytes → Exchange) → Exchange
  select_db db st unread next =
      if is_positive db
      then and_then (exchange st unread (select_word ∷ (itoa db ∷ []))) next
      else next st unread

  -- `do`
  unfoldable pub perform : RedisClient → server.State → List Bytes → Exchange
  perform c st args = elim (server.dial st) [
    | err e ↦ (st, err e)
    | ok opened ↦
        authenticate c.password opened []
          λ st1 unread1. select_db c.db st1 unread1 λ st2 unread2. exchange st2 unread2 args
  ]

  abbrev only_error : Result (Reply × Bytes) → Result (Unit {0})
  only_error (err e) = err e
  only_error (ok _) = ok tt

  unfoldable pub set_value :
      RedisClient → server.State → Bytes → Bytes → ℕ → server.State × Result (Unit {0})
  set_value c st key value seconds =
      let (after, result) = perform c st (set_args key value seconds) in (after, only_error result)

  abbrev value_of : Result (Reply × Bytes) → Result Bytes
  value_of (err e) = err e
  value_of (ok (Reply.missing, _)) = err redis_nil
  value_of (ok (Reply.line text, _)) = ok text
  value_of (ok (Reply.integer _, _)) = err "unexpected redis reply type"
  value_of (ok (Reply.bulk content, _)) = ok content
  value_of (ok (Reply.array _, _)) = err "unexpected redis reply type"

  unfoldable pub get_value : RedisClient → server.State → Bytes → server.State × Result Bytes
  get_value c st key =
      let (after, result) = perform c st (get_word ∷ (key ∷ [])) in (after, value_of result)

  module _ ⦃fl : Float64⦄ where
    unfoldable pub save :
        Codec
        → RedisClient
        → ℕ
        → server.State
        → RateSnapshot fl.Value
        → server.State × Result (Unit {0})
    save codec c ttl st s =
        if blank s.rate_id
        then (st, err "rate snapshot missing rate_id")
        else elim (codec.marshal s) [
          | err e ↦ (st, err e)
          | ok payload ↦ set_value c st (snapshot_key codec s.rate_id) payload ttl
        ]

    abbrev snapshot_of : Codec → Result Bytes → Result (RateSnapshot fl.Value)
    snapshot_of codec (err e) = err (if e == redis_nil then "rate snapshot not found" else e)
    snapshot_of codec (ok payload) = codec.unmarshal payload

    unfoldable pub load :
        Codec → RedisClient → server.State → String → server.State × Result (RateSnapshot fl.Value)
    load codec c st rate_id =
        let id = trim rate_id in
        if is_empty id
        then (st, err "rate snapshot missing rate_id")
        else let (after, result) = get_value c st (snapshot_key codec id) in
          (after, snapshot_of codec result)
