-- ===== src/BoundedJson.antt =====
-- internal/boundedjson/decode.go. What `json.Decoder` makes of the bytes is a parameter: the tokens that `Token`
-- returns in turn, and whether they end with the input or with a syntax error.
pub mod RoundTrip
pub mod Sound
mod Tests
use fleetdiff.Base.{
  ℕ, zero, suc, ◌*◌, ◌+◌, Bool, true, false, List, [], ◌∷◌, length, ltb, if◌then◌else◌, Result, ok,
  err, ◌>>=◌, bad_encoding,
}
use fleetdiff.Text.{Text, one_of}
use fleetdiff.Text.Utf8.{valid_utf8}

-- `json.Token`. A number keeps its text.
pub data Token : Type 0 where
  open_object close_object open_array close_array null_token : Token
  bool_token : Bool → Token
  number_token string_token : Text → Token

-- The value that is returned; the members of an object stand in the order of the text, which a Go map forgets.
mutual
  pub data Json : Type 0 where
    null : Json
    bool : Bool → Json
    number string : Text → Json
    array : Items → Json
    object : Members → Json

  pub data Items : Type 0 where
    no_items : Items
    item : Json → Items → Items

  pub data Members : Type 0 where
    no_members : Members
    member : Text → Json → Members → Members

-- What is left to read: the tokens, and the number of values that may still come.
abbrev pub Left : Type 0
Left = List Token × ℕ

-- Nothing may follow the value.
unfoldable pub at_end : Bool → Json × Left → Result Json
at_end true (v, ([], n)) = ok v
at_end _ _ = err bad_encoding

-- `read`, whose loops are `read_items` and `read_members`. Each call costs a unit of fuel; `d` is the depth and
-- `keys` are the keys of the object so far.
module _ (max_depth : ℕ) where
  unfoldable mutual
    pub read : ℕ → ℕ → Left → Result (Json × Left)
    read zero d s = err bad_encoding
    read (suc f) d (ts, zero) = err bad_encoding
    read (suc f) d ([], suc n) = err bad_encoding
    read (suc f) d (open_object ∷ ts, suc n) =
        let members = read_members f (suc d) [] (ts, n) >>= λ (ms, s). ok (object ms, s) in
        if ltb max_depth d then err bad_encoding else members
    read (suc f) d (open_array ∷ ts, suc n) =
        let items = read_items f (suc d) (ts, n) >>= λ (vs, s). ok (array vs, s) in
        if ltb max_depth d then err bad_encoding else items
    read (suc f) d (close_object ∷ ts, suc n) = err bad_encoding
    read (suc f) d (close_array ∷ ts, suc n) = err bad_encoding
    read (suc f) d (null_token ∷ ts, suc n) =
        if ltb max_depth d then err bad_encoding else ok (null, (ts, n))
    read (suc f) d (bool_token b ∷ ts, suc n) =
        if ltb max_depth d then err bad_encoding else ok (bool b, (ts, n))
    read (suc f) d (number_token s ∷ ts, suc n) =
        if ltb max_depth d then err bad_encoding else ok (number s, (ts, n))
    read (suc f) d (string_token s ∷ ts, suc n) =
        if ltb max_depth d then err bad_encoding else ok (string s, (ts, n))

    pub read_items : ℕ → ℕ → Left → Result (Items × Left)
    read_items zero d s = err bad_encoding
    read_items (suc f) d ([], n) = err bad_encoding
    read_items (suc f) d (close_array ∷ ts, n) = ok (no_items, (ts, n))
    read_items (suc f) d (close_object ∷ ts, n) = err bad_encoding
    read_items (suc f) d (t ∷ ts, n) =
        read f d (t ∷ ts, n) >>= λ (v, s). read_items f d s >>= λ (vs, r). ok (item v vs, r)

    pub read_members : ℕ → ℕ → List Text → Left → Result (Members × Left)
    read_members zero d keys s = err bad_encoding
    read_members (suc f) d keys (close_object ∷ ts, n) = ok (no_members, (ts, n))
    read_members (suc f) d keys (string_token k ∷ ts, n) =
        let more = read f d (ts, n) >>= λ (v, s).
        read_members f d (k ∷ keys) s >>= λ (ms, r). ok (member k v ms, r) in
        if one_of k keys then err bad_encoding else more
    read_members (suc f) d keys (ts, n) = err bad_encoding

  unfoldable pub decode_tokens : ℕ → Bool → List Token → Result Json
  unfolding at_end
  decode_tokens max_nodes ended ts = read (2 * length ts + 1) 0 (ts, max_nodes) >>= at_end ended

  -- `Decode`
  unfoldable pub decode : (Text → List Token × Bool) → Text → ℕ → Result Json
  decode tokens data_bytes max_nodes =
      if valid_utf8 data_bytes
      then decode_tokens max_nodes (tokens data_bytes).1 (tokens data_bytes).0
      else err bad_encoding
