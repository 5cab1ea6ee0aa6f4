-- ===== src/BoundedJson/Sound.antt =====
-- What internal/boundedjson returns is the value of the tokens, and within its bounds.
use mathlib.Core.List.{append_assoc, append-nil}
use fleetdiff.Base.{
  ℕ, zero, suc, ◌+◌, ◌*◌, ◌≤◌, ◌≡◌, refl, sym, Bool, true, false, List, [], ◌∷◌, ◌++◌, arith,
  length, ltb, ok, err, ◌>>=◌, >>=-eq-ok, ok-injective, if-cases, if◌then◌else◌, err-ne-ok, subst,
  ap, ◌∙◌, bad_encoding,
}
use fleetdiff.Text.{Text, one_of}
use fleetdiff.BoundedJson.{
  Token, open_object, close_object, open_array, close_array, null_token, bool_token, number_token,
  string_token, Json, null, bool, number, string, Items, item, Members, Left, read, read_items,
  read_members, decode_tokens, at_end,
}
use fleetdiff.BoundedJson.RoundTrip.{
  emit, emit_items, emit_members, nodes, nodes_items, nodes_members, height, height_items,
  height_members, HasDistinctKeys, ItemsHaveDistinctKeys, MembersHaveDistinctKeys,
}

-- Of the tokens and the values that are left, the ones of `v` are taken.
record IsTaken (tokens : List Token) (printed : List Token) (before count : ℕ) (after : Left)
    : Type 0 where
  text : tokens ≡ printed ++ after.0
  values : before ≡ count + after.1

record IsRead (max_depth d : ℕ) (ts : List Token) (n : ℕ) (r : Json × Left) : Type 0 where
  taken : IsTaken ts (emit r.0) n (nodes r.0) r.1
  within : d + height r.0 ≤ max_depth
  distinct : HasDistinctKeys r.0

record AreItems (max_depth d : ℕ) (ts : List Token) (n : ℕ) (r : Items × Left) : Type 0 where
  taken : IsTaken ts (emit_items r.0) n (nodes_items r.0) r.1
  within : d ≤ suc max_depth → d + height_items r.0 ≤ suc max_depth
  distinct : ItemsHaveDistinctKeys r.0

record AreMembers (max_depth d : ℕ) (keys : List Text) (ts : List Token) (n : ℕ)
    (r : Members × Left) : Type 0 where
  taken : IsTaken ts (emit_members r.0) n (nodes_members r.0) r.1
  within : d ≤ suc max_depth → d + height_members r.0 ≤ suc max_depth
  distinct : MembersHaveDistinctKeys r.0 keys

module _ (max_depth : ℕ) where
  -- A value without parts.
  scalar :
      (v : Json) (t : Token) (ts : List Token) (d n : ℕ) {r : Json × Left}
      → (emit v ≡ t ∷ [])
      → (nodes v ≡ 1)
      → (height v ≡ 0)
      → HasDistinctKeys v
      → (if ltb max_depth d then err bad_encoding else ok (v, (ts, n))) ≡ ok r
      → IsRead max_depth d (t ∷ ts) (suc n) r
  scalar v t ts d n p q z u =
      if-cases (ltb max_depth d) _ _ (λ c e. err-ne-ok e)
        (λ c e. subst (IsRead max_depth d (t ∷ ts) (suc n)) (ok-injective e) (record {
          taken = record { text = rw p refl; values = omega arith };
          within = ground arith;
          distinct = u;
        }))

  item_step :
      (f d : ℕ) (ts : List Token) (n : ℕ) {r : Items × Left}
      → ((a : Json × Left) → read max_depth f d (ts, n) ≡ ok a → IsRead max_depth d ts n a)
      → ((us : List Token) (m : ℕ) (b : Items × Left)
          → read_items max_depth f d (us, m) ≡ ok b
          → AreItems max_depth d us m b)
      → (read max_depth f d (ts, n) >>= λ (v, s).
          read_items max_depth f d s >>= λ (vs, r). ok (item v vs, r))
        ≡ ok r
      → AreItems max_depth d ts n r
  unfolding emit height nodes HasDistinctKeys
  item_step f d ts n one rest h =
      let (a, p, q) = >>=-eq-ok (read max_depth f d (ts, n)) _ h in
      let (b, p', q') = >>=-eq-ok (read_items max_depth f d a.1) _ q in
      let v = one a p in
      let vs = rest a.1.0 a.1.1 b p' in
      subst (AreItems max_depth d ts n) (ok-injective q') (record {
        taken = record {
          text =
              v.taken.text
              ∙ ap (λ u. emit a.0 ++ u) vs.taken.text
              ∙ sym (append_assoc (emit a.0) (emit_items b.0) b.1.0);
          values = omega (arith, v.taken.values, vs.taken.values);
        };
        within = ground (arith, v.within, vs.within);
        distinct = (v.distinct, vs.distinct);
      })

  mutual
    unfolding read emit height nodes HasDistinctKeys

    read-IsRead :
        (f d : ℕ) (ts : List Token) (n : ℕ) (r : Json × Left)
        → read max_depth f d (ts, n) ≡ ok r
        → IsRead max_depth d ts n r
    read-IsRead zero d ts n r h = err-ne-ok h
    read-IsRead (suc f) d ts zero r h = err-ne-ok h
    read-IsRead (suc f) d [] (suc n) r h = err-ne-ok h
    read-IsRead (suc f) d (open_object ∷ ts) (suc n) r h =
        if-cases (ltb max_depth d) _ _ (λ c e. err-ne-ok e)
          (λ c e.
            let (a, p, q) = >>=-eq-ok (read_members max_depth f (suc d) [] (ts, n)) _ e in
            let i = read_members-AreMembers f (suc d) [] ts n p in
            subst (IsRead max_depth d (open_object ∷ ts) (suc n)) (ok-injective q) (record {
              taken = record {
                text = ap (◌∷◌ open_object) i.taken.text;
                values = omega (arith, i.taken.values);
              };
              within = ground (arith, i.within);
              distinct = i.distinct;
            }))
          h
    read-IsRead (suc f) d (open_array ∷ ts) (suc n) r h =
        if-cases (ltb max_depth d) _ _ (λ c e. err-ne-ok e)
          (λ c e.
            let (a, p, q) = >>=-eq-ok (read_items max_depth f (suc d) (ts, n)) _ e in
            let i = read_items-AreItems f (suc d) ts n a p in
            subst (IsRead max_depth d (open_array ∷ ts) (suc n)) (ok-injective q) (record {
              taken = record {
                text = ap (◌∷◌ open_array) i.taken.text;
                values = omega (arith, i.taken.values);
              };
              within = ground (arith, i.within);
              distinct = i.distinct;
            }))
          h
    read-IsRead (suc f) d (close_object ∷ ts) (suc n) r h = err-ne-ok h
    read-IsRead (suc f) d (close_array ∷ ts) (suc n) r h = err-ne-ok h
    read-IsRead (suc f) d (null_token ∷ ts) (suc n) r h =
        scalar null null_token ts d n refl refl refl tt h
    read-IsRead (suc f) d (bool_token b ∷ ts) (suc n) r h =
        scalar (bool b) (bool_token b) ts d n refl refl refl tt h
    read-IsRead (suc f) d (number_token s ∷ ts) (suc n) r h =
        scalar (number s) (number_token s) ts d n refl refl refl tt h
    read-IsRead (suc f) d (string_token s ∷ ts) (suc n) r h =
        scalar (string s) (string_token s) ts d n refl refl refl tt h

    read_items-AreItems :
        (f d : ℕ) (ts : List Token) (n : ℕ) (r : Items × Left)
        → read_items max_depth f d (ts, n) ≡ ok r
        → AreItems max_depth d ts n r
    read_items-AreItems zero d ts n r h = err-ne-ok h
    read_items-AreItems (suc f) d [] n r h = err-ne-ok h
    read_items-AreItems (suc f) d (close_array ∷ ts) n r h =
        subst (AreItems max_depth d (close_array ∷ ts) n) (ok-injective h) (record {
          taken = record { text = refl; values = omega arith };
          within = λ l. omega arith;
          distinct = tt;
        })
    read_items-AreItems (suc f) d (close_object ∷ ts) n r h = err-ne-ok h
    read_items-AreItems (suc f) d (open_object ∷ ts) n r h =
        item_step f d (open_object ∷ ts) n (read-IsRead f d (open_object ∷ ts) n)
          (read_items-AreItems f d) h
    read_items-AreItems (suc f) d (open_array ∷ ts) n r h =
        item_step f d (open_array ∷ ts) n (read-IsRead f d (open_array ∷ ts) n)
          (read_items-AreItems f d) h
    read_items-AreItems (suc f) d (null_token ∷ ts) n r h =
        item_step f d (null_token ∷ ts) n (read-IsRead f d (null_token ∷ ts) n)
          (read_items-AreItems f d) h
    read_items-AreItems (suc f) d (bool_token b ∷ ts) n r h =
        item_step f d (bool_token b ∷ ts) n (read-IsRead f d (bool_token b ∷ ts) n)
          (read_items-AreItems f d) h
    read_items-AreItems (suc f) d (number_token s ∷ ts) n r h =
        item_step f d (number_token s ∷ ts) n (read-IsRead f d (number_token s ∷ ts) n)
          (read_items-AreItems f d) h
    read_items-AreItems (suc f) d (string_token s ∷ ts) n r h =
        item_step f d (string_token s ∷ ts) n (read-IsRead f d (string_token s ∷ ts) n)
          (read_items-AreItems f d) h

    read_members-AreMembers :
        (f d : ℕ) (keys : List Text) (ts : List Token) (n : ℕ) {r : Members × Left}
        → read_members max_depth f d keys (ts, n) ≡ ok r
        → AreMembers max_depth d keys ts n r
    read_members-AreMembers zero d keys ts n h = err-ne-ok h
    read_members-AreMembers (suc f) d keys (close_object ∷ ts) n h =
        subst (AreMembers max_depth d keys (close_object ∷ ts) n) (ok-injective h) (record {
          taken = record { text = refl; values = omega arith };
          within = λ l. omega arith;
          distinct = tt;
        })
    read_members-AreMembers (suc f) d keys (string_token k ∷ ts) n h =
        if-cases (one_of k keys) _ _ (λ c e. err-ne-ok e)
          (λ c e.
            let (a, p, q) = >>=-eq-ok (read max_depth f d (ts, n)) _ e in
            let (b, p', q') = >>=-eq-ok (read_members max_depth f d (k ∷ keys) a.1) _ q in
            let v = read-IsRead f d ts n a p in
            let ms = read_members-AreMembers f d (k ∷ keys) a.1.0 a.1.1 p' in
            subst (AreMembers max_depth d keys (string_token k ∷ ts) n) (ok-injective q') (record {
              taken = record {
                text = ap (◌∷◌ (string_token k)) (
                    v.taken.text
                    ∙ ap (λ u. emit a.0 ++ u) ms.taken.text
                    ∙ sym (append_assoc (emit a.0) (emit_members b.0) b.1.0));
                values = omega (arith, v.taken.values, ms.taken.values);
              };
              within = ground (arith, v.within, ms.within);
              distinct = (c, v.distinct, ms.distinct);
            }))
          h
    read_members-AreMembers (suc f) d keys ([]) n h = err-ne-ok h
    read_members-AreMembers (suc f) d keys (open_object ∷ ts) n h = err-ne-ok h
    read_members-AreMembers (suc f) d keys (open_array ∷ ts) n h = err-ne-ok h
    read_members-AreMembers (suc f) d keys (close_array ∷ ts) n h = err-ne-ok h
    read_members-AreMembers (suc f) d keys (null_token ∷ ts) n h = err-ne-ok h
    read_members-AreMembers (suc f) d keys (bool_token b ∷ ts) n h = err-ne-ok h
    read_members-AreMembers (suc f) d keys (number_token s ∷ ts) n h = err-ne-ok h

-- The input ends after the tokens, they are those of the value, it has the depth and the number of values at most, and no object of it has a key
-- twice.
pub record IsDecoded (max_depth max_nodes : ℕ) (ended : Bool) (ts : List Token) (v : Json)
    : Type 0 where
  pub whole : ended ≡ true
  pub text : ts ≡ emit v
  pub depth : height v ≤ max_depth
  pub values : nodes v ≤ max_nodes
  pub distinct : HasDistinctKeys v

at_end-IsDecoded :
    (max_depth max_nodes : ℕ) (ended : Bool) (ts rest : List Token) (a v : Json) (k : ℕ)
    → IsRead max_depth 0 ts max_nodes (a, (rest, k))
    → at_end ended (a, (rest, k)) ≡ ok v
    → IsDecoded max_depth max_nodes ended ts v
unfolding at_end
at_end-IsDecoded max_depth max_nodes false ts rest a v k i h = err-ne-ok h
at_end-IsDecoded max_depth max_nodes true ts (t ∷ rest) a v k i h = err-ne-ok h
at_end-IsDecoded max_depth max_nodes true ts [] a v k i h =
    subst (IsDecoded max_depth max_nodes true ts) (ok-injective h) (record {
      whole = refl;
      text = i.taken.text ∙ append-nil (emit a);
      depth = omega (arith, i.within);
      values = omega (arith, i.taken.values);
      distinct = i.distinct;
    })

-- Where `Decode` returns a value, the input ends after the tokens read, which are those of the value; it lies within the
-- depth, has no more values than may come, and no object of it has a key twice.
pub decode_tokens-IsDecoded :
    (max_depth max_nodes : ℕ) (ended : Bool) (ts : List Token) (v : Json)
    → decode_tokens max_depth max_nodes ended ts ≡ ok v
    → IsDecoded max_depth max_nodes ended ts v
unfolding decode_tokens
decode_tokens-IsDecoded max_depth max_nodes ended ts v h =
    let (a, p, q) = >>=-eq-ok (read max_depth (2 * length ts + 1) 0 (ts, max_nodes)) _ h in
    at_end-IsDecoded max_depth max_nodes ended ts a.1.0 a.0 v a.1.1
      (read-IsRead max_depth (2 * length ts + 1) 0 ts max_nodes a p) q
