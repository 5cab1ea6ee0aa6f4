-- ===== src/BoundedJson/RoundTrip.antt =====
-- The tokens of a value, and that internal/boundedjson reads them back within its bounds.
use mathlib.Core.List.{append_assoc, append-nil}
use fleetdiff.Base.{
  ℕ, zero, suc, ◌+◌, ◌-◌, ◌*◌, ◌<◌, ◌≤◌, max, ◌≡◌, refl, true, false, List, [], ◌∷◌, ◌++◌, arith,
  length, length-append, ltb, Result, ok, err, if◌then◌else◌, ap, ◌>>=◌, bad_encoding,
}
use fleetdiff.Text.{Text, one_of}
use fleetdiff.BoundedJson.{
  Token, open_object, close_object, open_array, close_array, null_token, bool_token, number_token,
  string_token, Json, null, bool, number, string, array, object, Items, no_items, item, Members,
  no_members, member, Left, read, read_items, read_members, decode_tokens,
}

unfoldable mutual
  pub emit : Json → List Token
  emit null = null_token ∷ []
  emit (bool b) = bool_token b ∷ []
  emit (number s) = number_token s ∷ []
  emit (string s) = string_token s ∷ []
  emit (array vs) = open_array ∷ emit_items vs
  emit (object ms) = open_object ∷ emit_members ms

  pub emit_items : Items → List Token
  emit_items no_items = close_array ∷ []
  emit_items (item v vs) = emit v ++ emit_items vs

  pub emit_members : Members → List Token
  emit_members no_members = close_object ∷ []
  emit_members (member k v ms) = string_token k ∷ (emit v ++ emit_members ms)

-- How many values it consists of, itself included.
unfoldable mutual
  pub nodes : Json → ℕ
  nodes (array vs) = suc (nodes_items vs)
  nodes (object ms) = suc (nodes_members ms)
  nodes _ = 1

  pub nodes_items : Items → ℕ
  nodes_items no_items = 0
  nodes_items (item v vs) = nodes v + nodes_items vs

  pub nodes_members : Members → ℕ
  nodes_members no_members = 0
  nodes_members (member k v ms) = nodes v + nodes_members ms

-- How many levels lie below its own.
unfoldable mutual
  pub height : Json → ℕ
  height (array vs) = height_items vs
  height (object ms) = height_members ms
  height _ = 0

  pub height_items : Items → ℕ
  height_items no_items = 0
  height_items (item v vs) = max (suc (height v)) (height_items vs)

  pub height_members : Members → ℕ
  height_members no_members = 0
  height_members (member k v ms) = max (suc (height v)) (height_members ms)

-- No object has a key twice; `keys` stand before the members.
unfoldable mutual
  pub HasDistinctKeys : Json → Type 0
  HasDistinctKeys (array vs) = ItemsHaveDistinctKeys vs
  HasDistinctKeys (object ms) = MembersHaveDistinctKeys ms []
  HasDistinctKeys _ = Unit

  pub ItemsHaveDistinctKeys : Items → Type 0
  ItemsHaveDistinctKeys no_items = Unit
  ItemsHaveDistinctKeys (item v vs) = HasDistinctKeys v × ItemsHaveDistinctKeys vs

  pub MembersHaveDistinctKeys : Members → List Text → Type 0
  MembersHaveDistinctKeys no_members keys = Unit
  MembersHaveDistinctKeys (member k v ms) keys =
      (one_of k keys ≡ false) × HasDistinctKeys v × MembersHaveDistinctKeys ms (k ∷ keys)

module _ (max_depth : ℕ) where
  abbrev ReadsValue : Json → Type 0
  ReadsValue v =
      (rest : List Token) (f d k n : ℕ)
      → n ≡ nodes v + k
      → 2 * length (emit v) ≤ f
      → d + height v ≤ max_depth
      → HasDistinctKeys v
      → read max_depth f d (emit v ++ rest, n) ≡ ok (v, (rest, k))

  abbrev ReadsItems : Items → Type 0
  ReadsItems vs =
      (rest : List Token) (f d k n : ℕ)
      → n ≡ nodes_items vs + k
      → 2 * length (emit_items vs) ≤ f
      → d + height_items vs ≤ suc max_depth
      → ItemsHaveDistinctKeys vs
      → read_items max_depth f d (emit_items vs ++ rest, n) ≡ ok (vs, (rest, k))

  abbrev ReadsMembers : Members → Type 0
  ReadsMembers ms =
      (rest : List Token) (f d k n : ℕ) (keys : List Text)
      → n ≡ nodes_members ms + k
      → 2 * length (emit_members ms) ≤ f
      → d + height_members ms ≤ suc max_depth
      → MembersHaveDistinctKeys ms keys
      → read_members max_depth f d keys (emit_members ms ++ rest, n) ≡ ok (ms, (rest, k))

  -- An item is read where one is printed.
  read_items-emit :
      (v : Json) (ts : List Token) (f d n : ℕ)
      → read_items max_depth (suc f) d (emit v ++ ts, n) ≡ (
          read max_depth f d (emit v ++ ts, n) >>= λ (w, s).
          read_items max_depth f d s >>= λ (ws, r). ok (item w ws, r))
  unfolding emit read
  read_items-emit null ts f d n = refl
  read_items-emit (bool b) ts f d n = refl
  read_items-emit (number s) ts f d n = refl
  read_items-emit (string s) ts f d n = refl
  read_items-emit (array vs) ts f d n = refl
  read_items-emit (object ms) ts f d n = refl

  within : (d h : ℕ) → d + h ≤ max_depth → ltb max_depth d ≡ false
  within d h l = ground arith

  nodes_pos : (v : Json) → 0 < nodes v
  unfolding nodes
  nodes_pos (array vs) = omega arith
  nodes_pos (object ms) = omega arith
  nodes_pos v = omega arith

  length-emit_pos : (v : Json) → 0 < length (emit v)
  unfolding emit
  length-emit_pos null = omega arith
  length-emit_pos (bool b) = omega arith
  length-emit_pos (number s) = omega arith
  length-emit_pos (string s) = omega arith
  length-emit_pos (array vs) = omega arith
  length-emit_pos (object ms) = omega arith

  length-emit_items_pos : (vs : Items) → 0 < length (emit_items vs)
  unfolding emit
  length-emit_items_pos no_items = omega arith
  length-emit_items_pos (item v vs) =
      omega (arith, length-append (emit v) (emit_items vs), length-emit_pos v)

  length-emit_members_pos : (ms : Members) → 0 < length (emit_members ms)
  unfolding emit
  length-emit_members_pos no_members = omega arith
  length-emit_members_pos (member k v ms) = omega arith

  abbrev found : Json → List Token → ℕ → Result (Json × Left)
  found v rest n = ok (v, (rest, n))

  leaf :
      (v : Json) (rest : List Token) (d n k : ℕ)
      → suc n ≡ 1 + k
      → d + 0 ≤ max_depth
      → (if ltb max_depth d then err bad_encoding else found v rest n) ≡ found v rest k
  leaf v rest d n k e l = rw (within d 0 l) (ap (found v rest) (omega arith))

  left_eq {ℓ} :
      {A : Type ℓ} (a : A) (rest : List Token) (n k : ℕ)
      → n ≡ 0 + k
      → ◌≡◌ {A = Result (A × Left)} (ok (a, (rest, n))) (ok (a, (rest, k)))
  left_eq {A} a rest n k e =
      let q : n ≡ k = omega arith in
      let f : ℕ → Result (A × Left) = λ m. ok (a, (rest, m)) in ap f q

  mutual
    unfolding read emit height nodes HasDistinctKeys

    read-emit : (v : Json) → ReadsValue v
    read-emit v rest zero d k n e h l u = absurd (omega (arith, length-emit_pos v))
    read-emit null rest (suc f) d k (suc n) e h l u = leaf null rest d n k e l
    read-emit (bool b) rest (suc f) d k (suc n) e h l u = leaf (bool b) rest d n k e l
    read-emit (number s) rest (suc f) d k (suc n) e h l u = leaf (number s) rest d n k e l
    read-emit (string s) rest (suc f) d k (suc n) e h l u = leaf (string s) rest d n k e l
    read-emit (array vs) rest (suc f) d k (suc n) e h l u =
        rw
          (
            within d (height_items vs) l,
            read-emit_items vs rest f (suc d) k n (omega arith) (omega arith) (omega arith) u,
          )
          refl
    read-emit (object ms) rest (suc f) d k (suc n) e h l u =
        rw
          (
            within d (height_members ms) l,
            read-emit_members ms rest f (suc d) k n [] (omega arith) (omega arith) (omega arith) u,
          )
          refl
    read-emit v rest (suc f) d k zero e h l u = absurd (omega (arith, nodes_pos v))

    read-emit_items : (vs : Items) → ReadsItems vs
    read-emit_items vs rest zero d k n e h l u = absurd (omega (arith, length-emit_items_pos vs))
    read-emit_items no_items rest (suc f) d k n e h l u = left_eq no_items rest n k e
    read-emit_items (item v vs) rest (suc f) d k n e h l u =
        let lens = length-append (emit v) (emit_items vs) in
        simp (
          append_assoc,
          read_items-emit,
          read-emit v (emit_items vs ++ rest) f d (nodes_items vs + k) n (omega arith)
              (omega (arith, length-emit_items_pos vs)) (omega arith) u.0,
          read-emit_items vs rest f d k (nodes_items vs + k) refl (omega (arith, length-emit_pos v))
              (omega arith) u.1,
        )

    read-emit_members : (ms : Members) → ReadsMembers ms
    read-emit_members ms rest zero d k n keys e h l u =
        absurd (omega (arith, length-emit_members_pos ms))
    read-emit_members no_members rest (suc f) d k n keys e h l u = left_eq no_members rest n k e
    read-emit_members (member key v ms) rest (suc f) d k n keys e h l u =
        let lens = length-append (emit v) (emit_members ms) in
        simp (
          append_assoc,
          u.0,
          read-emit v (emit_members ms ++ rest) f d (nodes_members ms + k) n (omega arith)
              (omega (arith, length-emit_members_pos ms)) (omega arith) u.1,
          read-emit_members ms rest f d k (nodes_members ms + k) (key ∷ keys) refl
              (omega (arith, length-emit_pos v)) (omega arith) u.2,
        )

-- `Decode` returns a value from the tokens of its text, when no object of it has a key twice, it lies within the depth
-- and it has no more values than may come.
pub decode_tokens-emit :
    (v : Json) (max_depth max_nodes : ℕ)
    → height v ≤ max_depth
    → nodes v ≤ max_nodes
    → HasDistinctKeys v
    → decode_tokens max_depth max_nodes true (emit v) ≡ ok v
unfolding decode_tokens
decode_tokens-emit v max_depth max_nodes h l u =
    let whole =
      read-emit max_depth v [] (2 * length (emit v) + 1) 0 (max_nodes - nodes v) max_nodes
        (omega arith) (omega arith) (omega arith) u in
    rw (rw append-nil at whole) refl
