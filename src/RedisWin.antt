-- ===== src/RedisWin.antt =====
-- internal/rediswin: writer.go, config.go and bar.go. A Redis list is a list of payloads, newest
-- first; the two Lua scripts, which Redis runs atomically, are functions on it. go-redis, the
-- network and the JSON encoder (sonic) are libraries.
pub mod Live
pub mod Window
pub mod Prefix
mod Tests
use chomo_syncer_go.Base.{
  if◌then◌else◌, ◌==◌, nat_eq, take, Text, codes, text_eq, to_upper, ℤ, or_default, millisecond,
  is_digit, atoi, leb_ℤ, parse_int, ℕ, suc, ◌-◌, Bool, Option, none, some, List, [], ◌∷◌, ◌++◌,
  arith, pos, negsuc,
}

pub record Config : Type 0 where
  pub key_prefix : Text
  pub window_size : ℤ
  pub stream_key : Text
  pub stream_max_len : ℤ

pub record ResolvedConfig : Type 0 where
  pub prefix : Text
  -- LTRIM stop index
  pub trim_stop : ℕ
  pub stream : Text
  -- 0 = no MAXLEN
  pub max_len : ℕ

abbrev pub default_window_size : ℕ
default_window_size = 200

abbrev pub default_stream_max_len : ℕ
default_stream_max_len = 10000

abbrev or_text : Text → Text → Text
or_text [] def = def
or_text (c ∷ cs) def = c ∷ cs

resolve_max_len : ℤ → ℕ
resolve_max_len (negsuc n) = 0
resolve_max_len (pos n) = if n == 0 then default_stream_max_len else n

-- `Config.resolve`
unfoldable pub resolve : Config → ResolvedConfig
unfolding resolve_max_len
resolve c = record {
  prefix = or_text c.key_prefix (codes "kline");
  trim_stop = or_default c.window_size default_window_size - 1;
  stream = or_text c.stream_key (codes "stream:market:kline_ready");
  max_len = resolve_max_len c.stream_max_len;
}

-- `Writer.Key`
unfoldable pub key : ResolvedConfig → Text → Text → Text
key cfg symbol interval = cfg.prefix ++ (codes ":" ++ (to_upper symbol ++ (codes ":" ++ interval)))

-- The bytes of a number at the head of a text: an optional minus sign, then digits.
unfoldable pub leading_digits : Text → Text
leading_digits [] = []
leading_digits (c ∷ cs) = let rest = leading_digits cs in if is_digit c then c ∷ rest else []

unfoldable pub leading_int : Text → Text
unfolding leading_digits
leading_int [] = []
leading_int (c ∷ cs) = if c == b'-' then c ∷ leading_digits cs else leading_digits (c ∷ cs)

-- The scripts' `tonumber(string.match(head, '^%[(%-?%d+)'))`. Lua numbers are exact for the
-- millisecond timestamps that occur.
unfoldable pub head_time : Text → Option ℤ
unfolding leading_int
head_time [] = none
head_time (c ∷ cs) = if c == b'[' then parse_int (leading_int cs) else none

-- `startTimeOf`: the same integer, read in Go with the range of an int64.
unfoldable pub start_time_of : Text → Option ℤ
unfolding leading_int
start_time_of [] = none
start_time_of (c ∷ cs) = if c == b'[' then atoi (leading_int cs) else none

-- LTRIM key 0 stop
unfoldable pub ltrim : ℕ → List Text → List Text
ltrim stop ps = take (suc stop) ps

-- `monotonicPushScript`: the new list, and 1 if the payload was written or 0 if it was skipped.
unfoldable pub push_script : Text → ℤ → ℕ → List Text → List Text × ℕ
unfolding ltrim
push_script payload ts stop [] = (ltrim stop (payload ∷ []), 1)
push_script payload ts stop (head ∷ ps) = elim (head_time head) [
  | none ↦ (ltrim stop (payload ∷ head ∷ ps), 1)
  | some ht ↦ if leb_ℤ ts ht then (head ∷ ps, 0) else (ltrim stop (payload ∷ head ∷ ps), 1)
]

-- `rebuildWindowScript`: DEL, RPUSH of each payload, LTRIM.
unfoldable pub rebuild_script : ℕ → List Text → List Text
unfolding ltrim
rebuild_script stop payloads = ltrim stop payloads

pub data PushError : Type 0 where
  ctx_done not_a_bar redis_failed : PushError

pub data Result {ℓ} (A : Type ℓ) : Type ℓ where
  ok : A → Result A
  err : PushError → Result A

-- `pushOne` on one window: `ctx_err` is ctx.Err(), `io_err` whether the call to Redis fails.
unfoldable pub push_one : Bool → Bool → ℕ → Text → ℤ → List Text → Result (List Text)
unfolding push_script
push_one ctx_err io_err stop payload ts ps =
    if ctx_err
    then err ctx_done
    else if io_err
    then err redis_failed
    else ok (push_script payload ts stop ps).0

-- `PushRawAndTrim`
unfoldable pub push_raw_and_trim : Bool → Bool → ℕ → Text → List Text → Result (List Text)
unfolding start_time_of push_one
push_raw_and_trim ctx_err io_err stop payload ps = elim (start_time_of payload) [
  | none ↦ err not_a_bar
  | some ts ↦ push_one ctx_err io_err stop payload ts ps
]
