-- ===== src/Database/Filter.antt =====
-- The loop of `Filter` (internal/store/db.go) and the entries of its prefix.
use openai_gate.Base.{
  ℕ, zero, suc, ◌<◌, ◌≡◌, refl, sym, ◌∙◌, inl, inr, true, false, List, [], ◌∷◌, ◌++◌, append_assoc,
  append-nil, arith, subst, Bytes, bytes_eq, ok, err, ◌>>◌, keep, keep-append, All-map, All-append,
  length, length-append,
}
use openai_gate.Base.Assoc.{insert_fresh, insert}
use openai_gate.Text.Order.{bytes_lt, bytes_lt_trans, bytes_lt-ne}
use openai_gate.Mdbx.{Mdbx, Laws, not_found}
use openai_gate.Mdbx.Ordered.{
  Entry, Below, Ascending, Ascending-right, first_above_next, first_from-cases,
}
use openai_gate.Database.{start_key, end_key, filter, filter_loop, filter_scan}
use openai_gate.Database.Range.{
  under, FromStart, keep-under-Below, keep-under-FromEnd, under-before, Above-bound,
}

module _ (m : Mdbx) (laws : Laws m) where
  -- What a round of the loop finds behind the entry that it stands on.
  next_after :
      (t : m.Txn) (pre : List Entry) (k v : Bytes) (rest : List Entry)
      → m.entries t ≡ pre ++ (k, v) ∷ rest
      → m.next t k ≡ elim rest [ [] ↦ err not_found | e ∷ r ↦ ok e ]
  next_after t pre k v [] e =
      laws.next_lem t k ∙ rw e (rw (first_above_next pre k v [] (rw e at (laws.ascending t))) refl)
  next_after t pre k v (x ∷ r) e =
      laws.next_lem t k
      ∙ rw e (rw (first_above_next pre k v (x ∷ r) (rw e at (laws.ascending t))) refl)

  insert-Below :
      (k v : Bytes) (acc : List Entry) → Below k acc → insert k v acc ≡ acc ++ (k, v) ∷ []
  insert-Below k v acc h = insert_fresh k v acc (All-map (λ x g. bytes_lt-ne x.0 k g) acc h)

  Below-trans : (k j : Bytes) (acc : List Entry) → bytes_lt k j ≡ true → Below k acc → Below j acc
  Below-trans k j acc h = All-map (λ x g. bytes_lt_trans x.0 k j g h) acc

  -- The loop adds the entries of the range to its result, in their order.
  filter_loop_lem :
      (f : ℕ) (t : m.Txn) (prefix : Bytes) (pre : List Entry) (k v : Bytes) (rest acc : List Entry)
      → m.entries t ≡ pre ++ (k, v) ∷ rest
      → length rest < f
      → FromStart prefix ((k, v) ∷ rest)
      → Below k acc
      → filter_loop m f t (end_key prefix) (k, v) acc
        ≡ ok (acc ++ keep (under prefix) ((k, v) ∷ rest))
  unfolding filter_loop
  filter_loop_lem zero t prefix pre k v rest acc e fuel from b = absurd (omega arith)
  filter_loop_lem (suc f) t prefix pre k v [] acc e fuel from b = ground (
    arith,
    next_after t pre k v [] e,
    insert-Below k v acc b,
    under-before prefix k from.0,
    append-nil acc,
  )
  filter_loop_lem (suc f) t prefix pre k v (x ∷ rest) acc e fuel from b =
      let sorted = Ascending-right pre _ (subst Ascending e (laws.ascending t)) in
      let acc' = acc ++ (k, v) ∷ [] in
      ground (
        arith,
        next_after t pre k v (x ∷ rest) e,
        insert-Below k v acc b,
        under-before prefix k from.0,
        append-nil acc,
        keep-under-FromEnd prefix (x ∷ rest),
        Above-bound k (end_key prefix) (x ∷ rest),
        filter_loop_lem f t prefix (pre ++ (k, v) ∷ []) x.0 x.1 rest acc'
            (e ∙ sym (append_assoc pre ((k, v) ∷ []) (x ∷ rest))) (omega arith) from.1,
        All-append (λ (y : Entry). bytes_lt y.0 x.0 ≡ true) acc ((k, v) ∷ [])
            (Below-trans k x.0 acc sorted.0.0 b) (sorted.0.0, tt),
        append_assoc acc ((k, v) ∷ []) (keep (under prefix) (x ∷ rest)),
      )

  -- From the first key of the range on, the entries of the prefix are the kept ones.
  keep-under-split :
      (prefix : Bytes) (pre rest : List Entry)
      → Below (start_key prefix) pre
      → keep (under prefix) (pre ++ rest) ≡ keep (under prefix) rest
  keep-under-split prefix pre rest h =
      keep-append (under prefix) pre rest ∙ rw (keep-under-Below prefix pre h) refl

  FromStart-sorted :
      (prefix : Bytes) (e : Entry) (rest : List Entry)
      → Ascending (e ∷ rest)
      → bytes_lt e.0 (start_key prefix) ≡ false
      → FromStart prefix (e ∷ rest)
  FromStart-sorted prefix e rest s h = (h, Above-bound e.0 (start_key prefix) rest h s.0)

  length_rest-lt :
      (pre : List Entry) (e : Entry) (rest : List Entry) → length rest < length (pre ++ e ∷ rest)
  length_rest-lt pre e rest = omega (arith, length-append pre (e ∷ rest))

  filter_scan_lem :
      (t : m.Txn) (prefix : Bytes)
      → filter_scan m t prefix ≡ (m.open_cursor t >> ok (keep (under prefix) (m.entries t)))
  unfolding filter_scan
  filter_scan_lem t prefix = elim (first_from-cases (start_key prefix) (m.entries t)) [
    | inl (none_found, below) ↦ ground (
      arith,
      laws.set_range_lem t (start_key prefix),
      none_found,
      keep-under-Below prefix (m.entries t) below,
    )
    | inr (pre, e, rest, hit, parts, below, from) ↦
        let sorted = Ascending-right pre _ (subst Ascending parts (laws.ascending t)) in
        ground (
          arith,
          laws.set_range_lem t (start_key prefix),
          hit,
          parts,
          keep-under-split prefix pre (e ∷ rest) below,
          length_rest-lt pre e rest,
          filter_loop_lem (length (m.entries t)) t prefix pre e.0 e.1 rest [] parts
              (rw parts (length_rest-lt pre e rest)) (FromStart-sorted prefix e rest sorted from)
              tt,
        )
  ]

  -- `Filter(prefix)` fails only if the transaction or the cursor cannot be opened, and otherwise
  -- returns, in key order, exactly the entries whose key begins with `prefix:`.
  pub filter_lem :
      (db : m.Txn) (prefix : Bytes)
      → filter m db prefix
        ≡ (m.begin db >> m.open_cursor db >> ok (keep (under prefix) (m.entries db)))
  unfolding filter
  filter_lem db prefix = rw (filter_scan_lem db prefix) (ground arith)
