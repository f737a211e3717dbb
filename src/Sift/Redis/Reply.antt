-- ===== src/Sift/Redis/Reply.antt =====
-- The parser of the reply of `FT.SEARCH` in sift1m/redis_bench.py: `[count, key0, [fields], key1, …]`.
use rostam_bench.Base.{
  ℕ, ◌≡◌, refl, ap, ◌∙◌, Option, none, some, List, [], ◌∷◌, arith, map, ◌==◌, ◌<◌, All,
  if◌then◌else◌,
}
use rostam_bench.Base.Int.{ℤ, pos}
use rostam_bench.Python.Errors.{Text, Bytes, Result, ok, err}
use rostam_bench.Python.Decimal.{decimal}
use rostam_bench.Python.Json.{str, to_int}
use rostam_bench.Python.ReadDecimal.{to_int-decimal, decimal-below}
use rostam_bench.PyClient.Socket.{
  Outcome, done, raised, index_error, value_error, attribute_error, decode_error, ◌>>=◌,
}
use rostam_bench.Sift.Redis.{Value, Values, blob, text, stop, item, key_of}

-- What stands behind the first `:` and in front of the next, if there is a `:`: `key.split(":")[1]`.
unfoldable pub until_colon : Text → Text
until_colon [] = []
until_colon (c ∷ s) = let rest = until_colon s in if c == b':' then [] else c ∷ rest

unfoldable pub second_part : Text → Outcome Text
unfolding until_colon
second_part [] = raised index_error
second_part (c ∷ s) = let rest = second_part s in if c == b':' then done (until_colon s) else rest

-- `int(text)`, whose exception is `ValueError`.
abbrev read : Result ℤ → Outcome ℤ
read (ok i) = done i
read (err e) = raised value_error

-- `utf8` is `bytes.decode`, `none` where it raises.
module _ (utf8 : Bytes → Option Text) where
  -- `key.decode() if isinstance(key, bytes) else key`, and then `key.split`, which only a text has.
  unfoldable pub key_text : Value → Outcome Text
  key_text (blob b) = elim (utf8 b) [ none ↦ raised decode_error | some s ↦ done s ]
  key_text (text s) = done s
  key_text v = raised attribute_error

  unfoldable pub key_id : Value → Outcome ℤ
  unfolding second_part key_text
  key_id v = key_text v >>= λ key. second_part key >>= λ s. read (to_int (str s))

  -- The values at the odd positions: a key, and the fields that are passed over.
  unfoldable pub key_ids : Values → Outcome (List ℤ)
  unfolding key_id
  key_ids stop = done []
  key_ids (item key stop) = key_id key >>= λ i. done (i ∷ [])
  key_ids (item key (item fields rest)) = key_id key >>= λ i. key_ids rest >>= λ is. done (i ∷ is)

  unfoldable pub reply_ids : Values → Outcome (List ℤ)
  unfolding key_ids
  reply_ids stop = done []
  reply_ids (item count rest) = key_ids rest

  -- The reply for some ids, each with its fields.
  abbrev pub found_items : List (ℕ × Value) → Values
  found_items [] = stop
  found_items ((i, fields) ∷ hits) = item (blob (key_of i)) (item fields (found_items hits))

  -- `bytes.decode` reads what ASCII bytes stand for.
  abbrev pub DecodesKeys : Type 0
  DecodesKeys = (i : ℕ) → utf8 (key_of i) ≡ some (key_of i)

  until_colon-none : (s : Text) → All (λ c. c < b':') s → until_colon s ≡ s
  unfolding until_colon
  until_colon-none [] h = refl
  until_colon-none (c ∷ s) (h, hs) = ground (arith, until_colon-none s hs)

  second_part-key_of : (i : ℕ) → second_part (key_of i) ≡ done (decimal i)
  unfolding second_part
  second_part-key_of i = ap done (until_colon-none (decimal i) (decimal-below i))

  key_text-blob : (b : Bytes) (s : Text) → utf8 b ≡ some s → key_text (blob b) ≡ done s
  unfolding key_text
  key_text-blob b s h = ground (arith, h)

  key_id-key_of : (i : ℕ) → DecodesKeys → key_id (blob (key_of i)) ≡ done (pos i)
  unfolding key_id
  key_id-key_of i h =
      ap (λ o. o >>= λ key. second_part key >>= λ s. read (to_int (str s)))
        (key_text-blob (key_of i) (key_of i) (h i))
      ∙ ap (λ o. o >>= λ s. read (to_int (str s))) (second_part-key_of i)
      ∙ ap read (to_int-decimal i)

  key_ids-found :
      (hits : List (ℕ × Value))
      → DecodesKeys
      → key_ids (found_items hits) ≡ done (map (λ h. pos h.0) hits)
  unfolding key_ids
  key_ids-found [] h = refl
  key_ids-found ((i, fields) ∷ hits) h = rw (key_id-key_of i h, key_ids-found hits h) refl

  -- A reply that names keys of the load, each with any fields, behind any count, is read as the
  -- numbers of their rows, in order.
  pub reply_ids-found :
      (count : Value) (hits : List (ℕ × Value))
      → DecodesKeys
      → reply_ids (item count (found_items hits)) ≡ done (map (λ h. pos h.0) hits)
  unfolding reply_ids
  reply_ids-found count hits h = key_ids-found hits h
