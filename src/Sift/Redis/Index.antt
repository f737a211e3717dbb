-- ===== src/Sift/Redis/Index.antt =====
-- The wait for the index of sift1m/redis_bench.py: `FT.INFO` until everything is indexed.
use rostam_bench.Base.{
  ℕ, zero, suc, Bool, true, false, ◌&&◌, Option, none, some, [], ◌==◌, list_eq, if◌then◌else◌,
}
use rostam_bench.Base.Int.{ℤ, pos}
use rostam_bench.Python.Errors.{Text, ok, err}
use rostam_bench.Python.Json.{str, to_int}
use rostam_bench.Python.Dumps.{codes}
use rostam_bench.PyClient.Socket.{
  Outcome, done, raised, index_error, value_error, type_error, stuck, ◌>>=◌,
}
use rostam_bench.Sift.Redis.{Value, Values, blob, text, number, array, stop, item, idx, Redis}

-- `d.get(key)` on the dict `{info[i]: info[i + 1] for i in range(0, len(info), 2)}`, where the last of
-- equal keys counts; the key is given by the test on the values.
unfoldable pub get : (Value → Bool) → Values → Outcome (Option Value)
get is_key stop = done none
get is_key (item key stop) = raised index_error
get is_key (item key (item v rest)) = get is_key rest >>= λ later.
    done (elim later [ some w ↦ some w | none ↦ if is_key key then some v else none ])

abbrev is_blob : Text → Value → Bool
is_blob k (blob b) = list_eq b k
is_blob k v = false

abbrev is_text : Text → Value → Bool
is_text k (text s) = list_eq s k
is_text k v = false

-- `d.get(b"key", d.get("key", default)) or default`
unfoldable pub get_or : Text → ℤ → Values → Outcome Value
unfolding get
get_or key default info = get (is_text key) info >>= λ as_text.
    get (is_blob key) info >>= λ as_blob. done (truthy (first as_blob as_text))
  where
    first : Option Value → Option Value → Value
    first (some v) o = v
    first none (some v) = v
    first none none = number default

    truthy : Value → Value
    truthy (blob []) = number default
    truthy (text []) = number default
    truthy (number (pos zero)) = number default
    truthy (array stop) = number default
    truthy v = v

-- `int(v)`
unfoldable pub int_of : Value → Outcome ℤ
int_of (number n) = done n
int_of (blob b) = elim (to_int (str b)) [ ok n ↦ done n | err e ↦ raised value_error ]
int_of (text s) = elim (to_int (str s)) [ ok n ↦ done n | err e ↦ raised value_error ]
int_of (array v) = raised type_error

is_zero : ℤ → Bool
is_zero (pos n) = n == 0
is_zero n = false

-- `at_least_one v` is `float(v) >= 1.0`.
module _ {S : Type 0} (at_least_one : Value → Outcome Bool) (redis : Redis S) where
  -- The test on an answer. Both numbers are read before either is looked at.
  unfoldable pub is_indexed : Values → Outcome Bool
  unfolding get_or int_of is_zero
  is_indexed info = get_or (codes "percent_indexed") (pos 1) info >>= λ p.
      at_least_one p >>= λ whole. get_or (codes "indexing") (pos 0) info >>= λ n.
      int_of n >>= λ indexing. done (whole && is_zero indexing)

  -- `while True`: it ends with the first answer that passes the test.
  unfoldable pub wait : ℕ → S → Outcome S
  wait zero s = raised stuck
  wait (suc fuel) s = redis.info idx s >>= λ got. is_indexed got.0 >>= λ passed. elim passed [
    | true ↦ done got.1
    | false ↦ wait fuel (redis.sleep 2 got.1)
  ]
