-- ===== src/BoundedJson/Tests.antt =====
-- Concrete values.
use fleetdiff.Base.{◌≡◌, refl, true, [], ◌∷◌, ok, err, arith, bad_encoding}
use fleetdiff.Text.{codes, one_of, text_eq}
use fleetdiff.BoundedJson.{
  string_token, number_token, open_object, close_object, Json, number, bool, array, object, item,
  no_items, member, no_members, read, at_end, decode_tokens,
}
use fleetdiff.BoundedJson.RoundTrip.{emit, height, nodes, HasDistinctKeys, decode_tokens-emit}
use fleetdiff.BoundedJson.Sound.{IsDecoded, decode_tokens-IsDecoded}

-- {"id": 7, "tags": [true, []]}
abbrev sample : Json
sample = object (
    member (codes "id") (number (codes "7")) (
      member (codes "tags") (array (item (bool true) (item (array no_items) no_items))) no_members))

repeated_key :
    decode_tokens 4 9 true (
      open_object
      ∷ string_token (codes "a")
      ∷ number_token (codes "1")
      ∷ string_token (codes "a")
      ∷ number_token (codes "2")
      ∷ close_object
      ∷ [])
    ≡ err bad_encoding
unfolding decode_tokens read one_of text_eq
repeated_key = refl

too_deep_value : decode_tokens 1 9 true (emit sample) ≡ err bad_encoding
unfolding decode_tokens read one_of text_eq emit
too_deep_value = refl

decode_tokens-emit_example : decode_tokens 2 5 true (emit sample) ≡ ok sample
unfolding height nodes HasDistinctKeys one_of text_eq
decode_tokens-emit_example =
    decode_tokens-emit sample 2 5 (omega arith) (omega arith) (refl, tt, (refl, (tt, (tt, tt)), tt))

decode_tokens-IsDecoded_example : IsDecoded 2 5 true (emit sample) sample
unfolding decode_tokens read one_of text_eq emit at_end
decode_tokens-IsDecoded_example = decode_tokens-IsDecoded 2 5 true (emit sample) sample refl
