-- ===== src/Database/Delete.antt =====
-- The loop of `DeleteByPrefix` (internal/store/db.go), whose cursor stands on what it deletes.
use openai_gate.Base.{
  ℕ, zero, suc, ◌<◌, ◌≡◌, ◌≢◌, refl, sym, ◌∙◌, ap, Option, ◌⊎◌, inl, inr, true, false, List, [],
  ◌∷◌, ◌++◌, arith, subst, Bytes, bytes_eq, ok, err, >>=-eq-ok, keep, keep-append, head?, length,
  length-append, Bool-cases, Result-cases,
}
use openai_gate.Text.Order.{bytes_lt}
use openai_gate.Mdbx.{Mdbx, Laws, Error, found, not_found, failure, key_not_found, out_of_fuel}
use openai_gate.Mdbx.Ordered.{
  Entry, Below, Ascending, Ascending-right, first_above, first_above_gap, first_from-cases,
  lookup_at, remove_at,
}
use openai_gate.Database.{Fallible, start_key, end_key, delete_by_prefix, delete_loop, delete_scan}
use openai_gate.Database.Range.{
  outside, FromStart, keep-outside-Below, keep-outside-FromEnd, under-before, Above-bound,
}

module _ (m : Mdbx) (laws : Laws m) where
  -- The engine refused to delete a key, for another reason than that it is missing.
  abbrev pub DelFailed : Fallible m.Txn → Type 0
  DelFailed r =
      (t : m.Txn) × (k : Bytes) × (e : Error) × (m.del t k ≡ err e) × (e ≢ not_found) × (r ≡ err e)

  abbrev pub Leaves : List Entry → Fallible m.Txn → Type 0
  Leaves left r = ((t : m.Txn) × (r ≡ ok t) × (m.entries t ≡ left)) ⊎ DelFailed r

  del_ne_missing :
      (t : m.Txn) (pre : List Entry) (k v : Bytes) (rest : List Entry) (e : Error)
      → m.entries t ≡ pre ++ (k, v) ∷ rest
      → m.del t k ≡ err e
      → e ≢ not_found
  del_ne_missing t pre k v rest e parts h miss = ground (
    arith,
    laws.del_missing t k (h ∙ ap err miss),
    parts,
    lookup_at pre k v rest (subst Ascending parts (laws.ascending t)),
  )

  -- What is left after the entry that the cursor stands on is deleted, and where it moves.
  after_del :
      (t t' : m.Txn) (pre : List Entry) (k v : Bytes) (rest : List Entry)
      → m.entries t ≡ pre ++ (k, v) ∷ rest
      → m.del t k ≡ ok t'
      → m.entries t' ≡ pre ++ rest
  after_del t t' pre k v rest parts h =
      laws.del_lem t t' k h
      ∙ rw parts (remove_at pre k v rest (subst Ascending parts (laws.ascending t)))

  next_del :
      (t t' : m.Txn) (pre : List Entry) (k v : Bytes) (rest : List Entry)
      → m.entries t ≡ pre ++ (k, v) ∷ rest
      → m.del t k ≡ ok t'
      → m.next t' k ≡ found (head? rest)
  next_del t t' pre k v rest parts h =
      laws.next_lem t' k
      ∙ ap (λ (es : List Entry). found (first_above k es)) (after_del t t' pre k v rest parts h)
      ∙ ap (λ (x : Option Entry). found x)
          (first_above_gap pre k v rest (subst Ascending parts (laws.ascending t)))

  Leaves-map : (a b : List Entry) (r : Fallible m.Txn) → a ≡ b → Leaves a r → Leaves b r
  Leaves-map a b r e (inl (t, h, g)) = inl (t, h, g ∙ e)
  Leaves-map a b r e (inr f) = inr f

  -- A round at a key before `prefix;` deletes it, and goes on at the entry behind it.
  abbrev continue : (f : ℕ) (stop : Bytes) (t' : m.Txn) (rest : List Entry) → Fallible m.Txn
  continue f stop t' [] = ok t'
  continue f stop t' (x ∷ rest) = delete_loop m f t' stop x.0

  round :
      (f : ℕ) (t : m.Txn) (stop : Bytes) (pre : List Entry) (k v : Bytes) (rest left : List Entry)
      → m.entries t ≡ pre ++ (k, v) ∷ rest
      → bytes_lt k stop ≡ true
      → ((t' : m.Txn) → m.entries t' ≡ pre ++ rest → Leaves left (continue f stop t' rest))
      → Leaves left (delete_loop m (suc f) t stop k)
  unfolding delete_loop
  round f t stop pre k v rest left parts below go = elim (Result-cases (m.del t k)) [
    | inl (t', h) ↦
        subst (Leaves left) (sym (step t' h rest parts))
          (go t' (after_del t t' pre k v rest parts h))
    | inr (e, h) ↦
        let other = del_ne_missing t pre k v rest e parts h in
        inr (t, k, e, h, other, stops e h other)
  ]
    where
      step :
          (t' : m.Txn)
          → m.del t k ≡ ok t'
          → (r : List Entry) → m.entries t ≡ pre ++ (k, v) ∷ r
          → delete_loop m (suc f) t stop k ≡ continue f stop t' r
      step t' h [] p = ground (arith, below, h, next_del t t' pre k v [] p h)
      step t' h (x ∷ r) p = ground (arith, below, h, next_del t t' pre k v (x ∷ r) p h)

      stops :
          (e : Error) → m.del t k ≡ err e → e ≢ not_found → delete_loop m (suc f) t stop k ≡ err e
      stops not_found h other = absurd (other refl)
      stops (failure n) h other = ground (arith, below, h)
      stops key_not_found h other = ground (arith, below, h)
      stops out_of_fuel h other = ground (arith, below, h)

  -- An entry before `prefix;` is not kept.
  keep-outside_first :
      (prefix k v : Bytes) (rest : List Entry)
      → bytes_lt k (start_key prefix) ≡ false
      → bytes_lt k (end_key prefix) ≡ true
      → keep (outside prefix) ((k, v) ∷ rest) ≡ keep (outside prefix) rest
  keep-outside_first prefix k v rest from below = ground (arith, under-before prefix k from)

  past_end :
      (f : ℕ) (t : m.Txn) (prefix : Bytes) (pre : List Entry) (k v : Bytes) (rest : List Entry)
      → m.entries t ≡ pre ++ (k, v) ∷ rest
      → FromStart prefix ((k, v) ∷ rest)
      → bytes_lt k (end_key prefix) ≡ false
      → Leaves
          (pre ++ keep (outside prefix) ((k, v) ∷ rest))
          (delete_loop m (suc f) t (end_key prefix) k)
  unfolding delete_loop
  past_end f t prefix pre k v rest parts from past =
      let sorted = Ascending-right pre _ (subst Ascending parts (laws.ascending t)) in
      let kept =
        keep-outside-FromEnd prefix ((k, v) ∷ rest)
          (past, Above-bound k (end_key prefix) rest past sorted.0) from in
      inl (t, ground (arith, past), parts ∙ ap (λ (es : List Entry). pre ++ es) (sym kept))

  -- The loop deletes the entries of the range from the one that its cursor stands on.
  delete_loop_lem :
      (f : ℕ) (t : m.Txn) (prefix : Bytes) (pre : List Entry) (k v : Bytes) (rest : List Entry)
      → m.entries t ≡ pre ++ (k, v) ∷ rest
      → length rest < f
      → FromStart prefix ((k, v) ∷ rest)
      → Leaves (pre ++ keep (outside prefix) ((k, v) ∷ rest)) (delete_loop m f t (end_key prefix) k)
  delete_loop_lem zero t prefix pre k v rest parts fuel from = absurd (omega arith)
  delete_loop_lem (suc f) t prefix pre k v [] parts fuel from =
      elim (Bool-cases (bytes_lt k (end_key prefix))) [
        | inl below ↦ round f t (end_key prefix) pre k v [] _ parts below (λ t' e. inl (
          t',
          refl,
          e
              ∙ ap (λ (es : List Entry). pre ++ es)
                  (sym (keep-outside_first prefix k v [] from.0 below)),
        ))
        | inr past ↦ past_end f t prefix pre k v [] parts from past
      ]
  delete_loop_lem (suc f) t prefix pre k v (x ∷ rest) parts fuel from =
      elim (Bool-cases (bytes_lt k (end_key prefix))) [
        | inl below ↦ round f t (end_key prefix) pre k v (x ∷ rest) _ parts below (λ t' e.
            Leaves-map _ _ _
              (ap (λ (es : List Entry). pre ++ es)
                (sym (keep-outside_first prefix k v (x ∷ rest) from.0 below)))
              (delete_loop_lem f t' prefix pre x.0 x.1 rest e (omega arith) from.1))
        | inr past ↦ past_end f t prefix pre k v (x ∷ rest) parts from past
      ]

  length_rest-lt :
      (pre : List Entry) (e : Entry) (rest : List Entry) → length rest < length (pre ++ e ∷ rest)
  length_rest-lt pre e rest = omega (arith, length-append pre (e ∷ rest))

  keep-outside-split :
      (prefix : Bytes) (pre rest : List Entry)
      → Below (start_key prefix) pre
      → pre ++ keep (outside prefix) rest ≡ keep (outside prefix) (pre ++ rest)
  keep-outside-split prefix pre rest h =
      sym (keep-append (outside prefix) pre rest ∙ rw (keep-outside-Below prefix pre h) refl)

  delete_scan_lem :
      (t : m.Txn) (prefix : Bytes)
      → m.open_cursor t ≡ ok tt
      → Leaves (keep (outside prefix) (m.entries t)) (delete_scan m t prefix)
  unfolding delete_scan
  delete_scan_lem t prefix opened = elim (first_from-cases (start_key prefix) (m.entries t)) [
    | inl (none_found, below) ↦ inl (
      t,
      ground (arith, opened, laws.set_range_lem t (start_key prefix), none_found),
      sym (keep-outside-Below prefix (m.entries t) below),
    )
    | inr (pre, e, rest, hit, parts, below, from) ↦
        let sorted = Ascending-right pre _ (subst Ascending parts (laws.ascending t)) in
        subst (Leaves (keep (outside prefix) (m.entries t)))
          (ground (arith, opened, laws.set_range_lem t (start_key prefix), hit))
          (Leaves-map _ _ _
            (keep-outside-split prefix pre (e ∷ rest) below
              ∙ ap (λ (es : List Entry). keep (outside prefix) es) (sym parts))
            (delete_loop_lem (length (m.entries t)) t prefix pre e.0 e.1 rest parts
              (rw parts (length_rest-lt pre e rest))
              (from, Above-bound e.0 (start_key prefix) rest from sorted.0)))
  ]

  -- When the transaction and the cursor open, `DeleteByPrefix(prefix)` either stops at an error of
  -- the engine other than "not found", or commits a state that holds exactly the entries whose key
  -- does not begin with `prefix:`.
  pub delete_by_prefix_lem :
      (db : m.Txn) (prefix : Bytes)
      → m.begin db ≡ ok tt
      → m.open_cursor db ≡ ok tt
      → ((t : m.Txn) × (delete_by_prefix m db prefix ≡ m.commit t)
          × (m.entries t ≡ keep (outside prefix) (m.entries db)))
        ⊎ DelFailed (delete_by_prefix m db prefix)
  unfolding delete_by_prefix
  delete_by_prefix_lem db prefix began opened = elim (delete_scan_lem db prefix opened) [
    | inl (t, h, left) ↦ inl (t, ground (arith, began, h), left)
    | inr (t, k, e, failed, other, h) ↦ inr (t, k, e, failed, other, ground (arith, began, h))
  ]

  scan_opened :
      (db t : m.Txn) (prefix : Bytes) → delete_scan m db prefix ≡ ok t → m.open_cursor db ≡ ok tt
  unfolding delete_scan
  scan_opened db t prefix e = let (_, o, _) = >>=-eq-ok (m.open_cursor db) _ e in o

  -- If `DeleteByPrefix(prefix)` reports no error, exactly the entries outside of `prefix:` are left.
  pub delete_by_prefix_ok :
      (db db' : m.Txn) (prefix : Bytes)
      → delete_by_prefix m db prefix ≡ ok db'
      → m.entries db' ≡ keep (outside prefix) (m.entries db)
  unfolding delete_by_prefix
  delete_by_prefix_ok db db' prefix h =
      let (_, _, g) = >>=-eq-ok (m.begin db) _ h in
      let (t, e, c) = >>=-eq-ok (delete_scan m db prefix) (λ t. m.commit t) g in
      laws.commit_lem t db' c ∙ left t e (delete_scan_lem db prefix (scan_opened db t prefix e))
    where
      left :
          (t : m.Txn)
          → delete_scan m db prefix ≡ ok t
          → Leaves (keep (outside prefix) (m.entries db)) (delete_scan m db prefix)
          → m.entries t ≡ keep (outside prefix) (m.entries db)
      left t e (inl (t', e', g)) = cc (e, e', g)
      left t e (inr (t', k, er, _, _, e')) = cc (e, e')
